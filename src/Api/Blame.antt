-- ===== src/Api/Blame.antt =====
-- Handlers that leave everything alone, always or when they answer that the request was bad.
use onionmsg.Base.{◌≡◌, ◌≢◌, refl, ap, ◌∙◌, Outcome, Error, ok, err, panic, arith, ok-injective}
use onionmsg.Exec.{Exec}
use onionmsg.Api.Requests.{Response, Host, bad_request, on_core, respond, answered, try}

module _ {S : Type 0} where
  -- A call that answers with a bad request has changed nothing.
  abbrev pub Blames : Exec (Host S) Response → Type 0
  Blames m = (h : Host S) (w : Response) → (m h).0 ≡ ok w → w.status ≡ bad_request → (m h).1 ≡ h

  pub answered-Blames :
      {A : Type 0} (o : Outcome A) (refuse : Error → Response) (k : A → Exec (Host S) Response)
      → ((a : A) → Blames (k a))
      → Blames (answered o refuse k)
  answered-Blames (ok a) refuse k rest = rest a
  answered-Blames (err e) refuse k rest = λ h w e1 e2. refl
  answered-Blames panic refuse k rest = λ h w e1 e2. refl

  -- A last call, whose own errors are not the request's fault.
  pub last-Blames :
      {A : Type 0} (m : Exec S A) (refuse : Error → Response) (k : A → Response)
      → ((e : Error) → (refuse e).status ≢ bad_request)
      → ((a : A) → (k a).status ≢ bad_request)
      → Blames (try (on_core m) refuse (λ a. respond (k a)))
  last-Blames m refuse k other fine h w = go (m h.core).0 refl
    where
      go :
          (o : Outcome _)
          → (m h.core).0 ≡ o
          → (answered (m h.core).0 refuse (λ a. respond (k a)) (record h { core = (m h.core).1 })).0
            ≡ ok w
          → w.status ≡ bad_request
          → (answered (m h.core).0 refuse (λ a. respond (k a)) (record h { core = (m h.core).1 })).1
            ≡ h
      go (ok a) e e1 bad =
          absurd
            (fine a (let e2 : k a ≡ w = ok-injective (rw e at e1) in ap (λ v. v.status) e2 ∙ bad))
      go (err f) e e1 bad = absurd (
          other f
            (let e2 : refuse f ≡ w = ok-injective (rw e at e1) in ap (λ v. v.status) e2 ∙ bad))
      go panic e e1 bad = absurd (let e2 = rw e at e1 in ground arith)

  pub still-Blames : (m : Exec (Host S) Response) → ((h : Host S) → (m h).1 ≡ h) → Blames m
  still-Blames m still h w e1 e2 = still h

  pub answered-still :
      {A : Type 0} (o : Outcome A) (refuse : Error → Response) (k : A → Exec (Host S) Response)
      (h : Host S)
      → ((a : A) → (k a h).1 ≡ h)
      → (answered o refuse k h).1 ≡ h
  answered-still (ok a) refuse k h rest = rest a
  answered-still (err e) refuse k h rest = refl
  answered-still panic refuse k h rest = refl
