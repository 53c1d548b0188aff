-- ===== src/Daemon/InStep/Dialled.antt =====
-- `createPeerViaContactID` of internal/types/room.go, over whatever connections, makes the peers that
-- the making of rooms asks for.
use onionmsg.Base.{
  [], ◌≡◌, ap, true, false, Outcome-cases, inl, inr, ◌++◌, Option, Bytes, Outcome, ok, ok-injective,
  >>=-eq-ok, arith,
}
use onionmsg.Exec.Returns.{>>=-returns}
use onionmsg.Ed25519.{Scheme}
use onionmsg.Identity.{Identity, remote, new_identity, verify}
use onionmsg.Peer.{Peer, new_messaging_peer}
use onionmsg.Room.{Room}
use onionmsg.Command.NoPanic.{has_meta}
use onionmsg.Command.Ready.{new_identity-has_meta}
use onionmsg.Conn.{Conn, Zstd, write_struct, read_struct, flush}
use onionmsg.Contact.{
  ContactRequest, ContactResponse, contact_request, peer_of_response, create_peer_via_contact_id,
}
use onionmsg.Daemon.InStep.Made.{MakesPeers}

module _ (c : Scheme) (z : Zstd) (marshal : ContactRequest → Option Bytes)
    (unmarshal : Bytes → Option ContactResponse) (conns : Room → Identity → Conn) where
  peer_of_response-has_meta :
      (i : Identity) (id : Bytes) (resp : ContactResponse) (p : Peer)
      → peer_of_response c i id resp ≡ ok p
      → has_meta p.r_identity ≡ true
  unfolding peer_of_response new_messaging_peer
  peer_of_response-has_meta i id resp p h =
      elim (Outcome-cases (verify c i (resp.conv_fp ++ id) resp.sig)) [
        | inl (true, e) ↦
            let (j, made, same) =
              >>=-eq-ok (new_identity remote [] resp.conv_fp) _ (rw (e, peer_of_response) at h) in
            rw (← ok-injective same) (new_identity-has_meta resp.conv_fp j made)
        | inl (false, e) ↦ absurd (let h' = rw (e, peer_of_response) at h in ground arith)
        | inr (inl (f, e)) ↦ absurd (let h' = rw (e, peer_of_response) at h in ground arith)
        | inr (inr e) ↦ absurd (let h' = rw (e, peer_of_response) at h in ground arith)
      ]

  pub create_peer_via_contact_id-MakesPeers :
      MakesPeers (λ r i. (create_peer_via_contact_id c z marshal unmarshal i r (conns r i)).0)
  unfolding create_peer_via_contact_id
  create_peer_via_contact_id-MakesPeers r i p h =
      let run : Outcome Peer × Conn =
        create_peer_via_contact_id c z marshal unmarshal i r (conns r i) in
      let (n, s, wrote, rest) =
        >>=-returns _ (conns r i) p run.1 (write_struct z marshal (contact_request c i r))
          (ap (λ (o : Outcome Peer). (o, run.1)) h) in
      let (resp, t, got, last) = >>=-returns _ (flush s) p run.1 (read_struct z unmarshal) rest in
      peer_of_response-has_meta i r.id resp p (ap (λ (x : Outcome Peer × Conn). x.0) last)
