-- ===== src/Api/Files.antt =====
-- A file that was sent to `RouteRoomSendFile` of internal/api/api.go is what `RouteBlob` gives.
use onionmsg.Base.{
  ◌≡◌, refl, [], ◌∷◌, some, Bytes, Outcome, Error, ok, err, panic, codes, same_refl,
}
use onionmsg.Exec.{Exec}
use onionmsg.Conn.Stream.{joined}
use onionmsg.Daemon.Session.{append_blob}
use onionmsg.Sync.{file_of}
use onionmsg.Blob.{make_blob, save_ressource, stream_to}
use onionmsg.Blob.Filling.{until_empty, write_into_file-ends}
use onionmsg.Api.Requests.{
  Request, Response, Codec, Backend, Host, on_core, respond, answered, try, write_body, empty,
  reply_from_header,
}
use onionmsg.Api.Routes.{
  of_option, send_blob, uploaded, named_file, cached, blob_response, file_content, announce_file,
  route_room_send_file, route_blob,
}

module _ {S : Type 0} where
  answered-blobs :
      {A : Type 0} (o : Outcome A) (refuse : Error → Response) (k : A → Exec (Host S) Response)
      (h : Host S)
      → ((a : A) → (k a h).1.blobs ≡ h.blobs)
      → (answered o refuse k h).1.blobs ≡ h.blobs
  answered-blobs (ok a) refuse k h rest = rest a
  answered-blobs (err e) refuse k h rest = refl
  answered-blobs panic refuse k h rest = refl

  call-blobs :
      {A : Type 0} (m : Exec S A) (refuse : Error → Response) (w : Response) (h : Host S)
      → (try (on_core m) refuse (λ u. respond w) h).1.blobs ≡ h.blobs
  call-blobs m refuse w h =
      answered-blobs (m h.core).0 refuse (λ u. respond w) (record h { core = (m h.core).1 })
        (λ a. refl)

  module _ (k : Codec) (b : Backend S) where
    announce_file-blobs :
        (id raw : Bytes) (req : Request) (h : Host S)
        → (announce_file k b id raw req h).1.blobs ≡ h.blobs
    unfolding announce_file
    announce_file-blobs id raw req h = answered-blobs (reply_from_header k req) _ _ h (λ reply.
        call-blobs
          (b.send_message (req.form_value (codes "uuid")) (file_content k b id raw req reply)) _
          empty h)

    sent_file :
        (id : Bytes) (req : Request) (h : Host S)
        → file_of id (route_room_send_file k b id req h).1.blobs
          ≡ some (joined (until_empty req.body.pieces))
    unfolding route_room_send_file uploaded make_blob save_ressource append_blob file_of
    sent_file id req h =
        let raw : Bytes = joined (until_empty req.body.pieces) in
        rw (write_into_file-ends req.body.pieces, announce_file-blobs id raw req _, same_refl id)
          (rw (same_refl id) refl)

    blob_response_lem :
        (name raw : Bytes)
        → ((blob_response k b name raw).status ≡ 200) × ((blob_response k b name raw).body ≡ raw)
    unfolding blob_response named_file cached write_body
    blob_response_lem [] raw = (refl, refl)
    blob_response_lem (c ∷ name) raw = (refl, refl)

    -- What was sent as a file is what is given out: once a request to send a file was handled, whether
    -- its message went out or not, a request for the blob of that id is answered with 200 and the bytes
    -- that came before the first read of the body that returned none, and changes nothing.
    pub route_blob-route_room_send_file :
        (id : Bytes) (sent asked : Request) (h : Host S)
        → k.parse_uuid (asked.form_value (codes "uuid")) ≡ some id
        → let t = (route_room_send_file k b id sent h).1 in
          (w : Response) × (route_blob k b asked t ≡ (ok w, t))
          × (w.status ≡ 200)
          × (w.body ≡ joined (until_empty sent.body.pieces))
    unfolding route_blob send_blob stream_to of_option
    route_blob-route_room_send_file id sent asked h named =
        let e = sent_file id sent h in
        let name : Bytes = asked.form_value (codes "filename") in
        let raw : Bytes = joined (until_empty sent.body.pieces) in
        (
          blob_response k b name raw,
          rw (named, e, stream_to, e) refl,
          (blob_response_lem name raw).0,
          (blob_response_lem name raw).1,
        )
