-- ===== src/Http/Ends.antt =====
-- backend/app/api: what holds at the end of a handler, by the parts it is composed of.
use mad_devs_transport_shari.Prelude.{ℕ, ◌≡◌, refl, ap, Bool, true, false}
use mad_devs_transport_shari.Outcome.{
  Outcome, ok, raise, not_found, forbidden, conflict, auth, fault, if_encoded,
}
use mad_devs_transport_shari.Http.{
  Http, done, refused, crashed, Handler, Detail, ◌>>=◌, refuse_if, call, http_error,
}

pub bind-refused :
    {S A B : Type 0} (m : Handler S A) (f : A → Handler S B) (s s' : S) (status : ℕ)
    (detail : Detail)
    → m s ≡ (refused status detail, s')
    → (m >>= f) s ≡ (refused status detail, s')
bind-refused m f s s' status detail e =
    ap
      (λ r. elim r.0 [
        | done b ↦ f b r.1
        | refused status detail ↦ (refused status detail, r.1)
        | crashed x ↦ (crashed x, r.1)
      ])
      e

-- A part that gives a value hands it on.
pub bind-done :
    {S A B : Type 0} (m : Handler S A) (f : A → Handler S B) (s s' : S) (a : A)
    → m s ≡ (done a, s')
    → (m >>= f) s ≡ f a s'
bind-done m f s s' a e =
    ap
      (λ r. elim r.0 [
        | done b ↦ f b r.1
        | refused status detail ↦ (refused status detail, r.1)
        | crashed x ↦ (crashed x, r.1)
      ])
      e

module _ {S : Type 0} (inv : S → Type 0) (ouch : Type 0) where
  -- A value with `post`, or a refusal that leaves `inv`; a crash leaves it too, and needs `ouch`.
  abbrev pub Ends : {A : Type 0} → (A → S → Type 0) → Http A × S → Type 0
  Ends post (done a, s) = post a s
  Ends post (refused status detail, s) = inv s
  Ends post (crashed e, s) = inv s × ouch

  -- The same of a service, whose exceptions roll back.
  abbrev pub Answers : {A : Type 0} → (A → S → Type 0) → Outcome (A × S) → Type 0
  Answers post (ok (a, s)) = post a s
  Answers post (raise (fault e)) = ouch
  Answers post (raise (not_found code)) = Unit
  Answers post (raise (forbidden code)) = Unit
  Answers post (raise (conflict code)) = Unit
  Answers post (raise (auth code)) = Unit

  -- A service reached only with values that can be encoded.
  pub encoded-Answers :
      {A : Type 0} (post : A → S → Type 0) (fits : Bool) (o : Outcome (A × S))
      → (fits ≡ false → ouch)
      → Answers post o
      → Answers post (if_encoded fits o)
  encoded-Answers post true o crash h = h
  encoded-Answers post false o crash h = crash refl

  module _ {A B : Type 0} (post : A → S → Type 0) (post' : B → S → Type 0) where
    bind_ended :
        (r : Http A × S) (f : A → Handler S B)
        → Ends post r
        → ((a : A) (s : S) → post a s → Ends post' (f a s))
        → Ends post' (elim r.0 [
          | done a ↦ f a r.1
          | refused status detail ↦ (refused status detail, r.1)
          | crashed e ↦ (crashed e, r.1)
        ])
    bind_ended (done a, s) f h g = g a s h
    bind_ended (refused status detail, s) f h g = h
    bind_ended (crashed e, s) f h g = h

    pub bind-Ends :
        (m : Handler S A) (f : A → Handler S B) (s : S)
        → Ends post (m s)
        → ((a : A) (s' : S) → post a s' → Ends post' (f a s'))
        → Ends post' ((m >>= f) s)
    bind-Ends m f s h g = bind_ended (m s) f h g

  module _ {A : Type 0} (post : A → S → Type 0) where
    answered :
        (status : ℕ) (s : S) (r : Outcome (A × S))
        → inv s
        → Answers post r
        → Ends post (elim r [ ok (a, s') ↦ (done a, s') | raise e ↦ (http_error status e, s) ])
    unfolding http_error
    answered status s (ok (a, s')) v h = h
    answered status s (raise (fault e)) v h = (v, h)
    answered status s (raise (not_found code)) v h = v
    answered status s (raise (forbidden code)) v h = v
    answered status s (raise (conflict code)) v h = v
    answered status s (raise (auth code)) v h = v

    pub call-Ends :
        (status : ℕ) (f : S → Outcome (A × S)) (s : S)
        → inv s
        → Answers post (f s)
        → Ends post (call status f s)
    call-Ends status f s v h = answered status s (f s) v h

  pub refuse_if-Ends :
      (keep : S → Type 0) (test : Bool) (status : ℕ) (detail : Detail) (s : S)
      → inv s
      → keep s
      → Ends (λ _ s'. keep s') (refuse_if test status detail s)
  refuse_if-Ends keep true status detail s v h = v
  refuse_if-Ends keep false status detail s v h = h

  -- However a handler ends, it leaves the rows in order.
  pub keeps_inv :
      {A : Type 0} (post : A → S → Type 0)
      → ((a : A) (s : S) → post a s → inv s)
      → (r : Http A × S) → Ends post r
      → inv r.1
  keeps_inv post f (done a, s) h = f a s h
  keeps_inv post f (refused status detail, s) h = h
  keeps_inv post f (crashed e, s) h = h.0

-- What lets a service crash lets it crash for a wider reason.
pub Answers-wider :
    {A S : Type 0} (inv : S → Type 0) (ouch ouch' : Type 0) (post : A → S → Type 0)
    → (ouch → ouch')
    → (o : Outcome (A × S)) → Answers inv ouch post o
    → Answers inv ouch' post o
Answers-wider inv ouch ouch' post f (ok (a, s)) h = h
Answers-wider inv ouch ouch' post f (raise (fault e)) h = f h
Answers-wider inv ouch ouch' post f (raise (not_found code)) h = tt
Answers-wider inv ouch ouch' post f (raise (forbidden code)) h = tt
Answers-wider inv ouch ouch' post f (raise (conflict code)) h = tt
Answers-wider inv ouch ouch' post f (raise (auth code)) h = tt
