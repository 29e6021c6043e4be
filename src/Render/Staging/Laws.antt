-- ===== src/Render/Staging/Laws.antt =====
-- frontend/src/render/staging-panel.tsx: an upload that is tried again stages the photo once.
use Prim.Native.String.{String}
use portrait_booth.Base.{
  ℕ, ◌+◌, ◌≤◌, ◌≡◌, refl, ap, sym, subst, ◌∙◌, ◌⊎◌, inl, inr, Bool, true, false, Option, none, some,
  if◌then◌else◌, if_cases, arith,
}
use mathlib.Core.Option.{some-injective}
use portrait_booth.Create.{SaveResponse}
use portrait_booth.Render.Staging.{
  Failure, Reply, ok, rejected, Server, Panel, uploading, is_session_expired, or_fresh, is_absent,
  on_failure, on_saved, send, on_session, attempt, upload,
}

module _ {V : Type 0} (server : Server V) (new_key : ℕ → String) where
  -- What the server says of its idempotency keys: `photos` are the photos that it holds, `holds` tells
  -- whether a save under a key is completed in the present session. A save adds a photo at most, and then
  -- its key is held; under a key that is held it adds none, and the key stays; an answer that the session
  -- is gone adds none, and nor does a new session.
  pub record IsIdempotent (photos : V → ℕ) (holds : String → V → Bool) : Type 0 where
    pub session_adds_none : (v : V) → photos (server.create_session v).1 ≤ photos v
    pub save_adds_one : (k : String) (v : V) → photos (server.save k v).1 ≤ photos v + 1
    pub save_is_held :
        (k : String) (v : V)
        → (photos (server.save k v).1 ≤ photos v) ⊎ (holds k (server.save k v).1 ≡ true)
    pub replay_adds_none :
        (k : String) (v : V) → holds k v ≡ true → photos (server.save k v).1 ≤ photos v
    pub expired_adds_none :
        (k : String) (v : V) (f : Failure)
        → (server.save k v).0 ≡ rejected f
        → is_session_expired f ≡ true
        → photos (server.save k v).1 ≤ photos v

  module _ {photos : V → ℕ} {holds : String → V → Bool} (laws : IsIdempotent photos holds) where
    -- No more than `m` photos; or one more, under the key that is kept for the next attempt.
    abbrev Out : ℕ → Panel V → Type 0
    Out m p =
        (photos p.server ≤ m)
        ⊎ ((photos p.server ≤ m + 1)
            × (p.session_ready ≡ true)
            × ((k : String) × (p.idempotency_key ≡ some k) × (holds k p.server ≡ true)))

    -- The rounds that may follow.
    abbrev Follows : ℕ → Option (Panel V → Panel V) → Type 0
    Follows m again =
        (g : Panel V → Panel V)
        → again ≡ some g
        → (p : Panel V) (k : String) → p.idempotency_key ≡ some k
        → photos p.server ≤ m
        → Out m (g p)

    on_failure-Out :
        (m : ℕ) (again : Option (Panel V → Panel V)) (f : Failure) (p : Panel V)
        → Follows m again
        → (is_session_expired f ≡ true → photos p.server ≤ m)
        → Out m p
        → Out m (on_failure server new_key again f p)
    unfolding on_failure
    on_failure-Out m none f p follows gone out = out
    on_failure-Out m (some again) f p follows gone out =
        if_cases (Out m) (is_session_expired f) _ _
          (λ e. follows again refl _ (new_key p.made) refl (gone e)) (λ _. out)

    saved-Out :
        (m : ℕ) (k : String) (p : Panel V) (v : V)
        → (server.save k p.server).1 ≡ v
        → p.idempotency_key ≡ some k
        → p.session_ready ≡ true
        → photos p.server ≤ m
        → Out m (record p { server = v })
    saved-Out m k p v e key ready small = elim (laws.save_is_held k p.server) [
      | inl none' ↦ inl (omega (arith, none', small, ap photos e))
      | inr held ↦ inr (
        omega (arith, laws.save_adds_one k p.server, small, ap photos e),
        ready,
        (k, key, sym (ap (holds k) e) ∙ held),
      )
    ]

    on_saved-Out :
        (m : ℕ) (again : Option (Panel V → Panel V)) (k : String) (r : Reply SaveResponse × V)
        (p : Panel V)
        → server.save k p.server ≡ r
        → Follows m again
        → p.idempotency_key ≡ some k
        → p.session_ready ≡ true
        → photos p.server ≤ m
        → Out m (on_saved server new_key again k r p)
    unfolding on_saved
    on_saved-Out m again k (ok saved, v) p e follows key ready small =
        saved-Out m k p v (ap (λ x. x.1) e) key ready small
    on_saved-Out m again k (rejected f, v) p e follows key ready small =
        on_failure-Out m again f (record p { server = v }) follows
          (λ gone. omega (
            arith,
            laws.expired_adds_none k p.server f (ap (λ x. x.0) e) gone,
            small,
            ap (λ x. photos x.1) e,
          ))
          (saved-Out m k p v (ap (λ x. x.1) e) key ready small)

    on_session-Out :
        (m : ℕ) (again : Option (Panel V → Panel V)) (k : String) (r : Reply Unit × V) (p : Panel V)
        → server.create_session p.server ≡ r
        → Follows m again
        → p.idempotency_key ≡ some k
        → photos p.server ≤ m
        → Out m (on_session server new_key again k r p)
    unfolding on_session send
    on_session-Out m again k (ok u, v) p e follows key small =
        let fewer : photos v ≤ m =
          omega (arith, laws.session_adds_none p.server, small, ap (λ x. photos x.1) e) in
        on_saved-Out m again k (server.save k v) (record p { server = v; session_ready = true })
          refl follows key refl fewer
    on_session-Out m again k (rejected f, v) p e follows key small =
        let fewer : photos v ≤ m =
          omega (arith, laws.session_adds_none p.server, small, ap (λ x. photos x.1) e) in
        on_failure-Out m again f (record p { server = v }) follows (λ _. fewer) (inl fewer)

    attempt-Out :
        (m : ℕ) (again : Option (Panel V → Panel V)) (p : Panel V) (k : String)
        → Follows m again
        → p.idempotency_key ≡ some k
        → photos p.server ≤ m
        → Out m (attempt server new_key again p)
    unfolding attempt send or_fresh
    attempt-Out m again p k follows key small =
        let named : or_fresh p.idempotency_key "" ≡ k = rw key refl in
        rw named (
          if_cases (Out m) p.session_ready _ _
            (λ ready.
              on_saved-Out m again k (server.save k p.server) p refl follows key ready small)
            (λ _.
              on_session-Out m again k (server.create_session p.server) p refl follows key small))

    upload-Out : (p : Panel V) → Out (photos p.server) (upload server new_key p)
    unfolding upload
    upload-Out p =
        attempt-Out (photos p.server) (some (attempt server new_key none)) _ _
          (λ g e q k key small.
            subst (λ (h : Panel V → Panel V). Out (photos p.server) (h q)) (some-injective _ _ e)
              (attempt-Out (photos p.server) none q k (λ g e. cc) key small))
          refl (omega arith)

    -- A retry whose save the server has completed before, in a session that is still there.
    replayed :
        (k : String) (r : Reply SaveResponse × V) (again : Panel V → Panel V) (p : Panel V)
        → server.save k p.server ≡ r
        → holds k p.server ≡ true
        → ((f : Failure) → r.0 ≡ rejected f → is_session_expired f ≡ false)
        → photos (on_saved server new_key (some again) k r p).server ≤ photos p.server
    unfolding on_saved on_failure
    replayed k (ok saved, v) again p e held lives =
        omega (arith, laws.replay_adds_none k p.server held, ap (λ x. photos x.1) e)
    replayed k (rejected f, v) again p e held lives =
        rw (lives f refl)
          (omega (arith, laws.replay_adds_none k p.server held, ap (λ x. photos x.1) e))

    upload-replayed :
        (q : Panel V) (k : String)
        → q.session_ready ≡ true
        → q.idempotency_key ≡ some k
        → holds k q.server ≡ true
        → ((f : Failure) → (server.save k q.server).0 ≡ rejected f → is_session_expired f ≡ false)
        → photos (upload server new_key q).server ≤ photos q.server
    unfolding upload attempt send or_fresh
    upload-replayed q k ready key held lives =
        let named : or_fresh q.idempotency_key (new_key q.made) ≡ k = rw key refl in
        rw (ready, named)
          (replayed k (server.save k q.server) (attempt server new_key none)
            (record q {
              stage = uploading;
              idempotency_key = some k;
              session_ready = true;
              made = if is_absent q.idempotency_key then q.made + 1 else q.made;
            })
            refl held lives)

    -- With a server that holds to its idempotency keys, an upload adds a photo at most. Uploading once more
    -- after it adds none to that, whatever became of the answers to the first upload, if the save of the
    -- second is not answered that the session is gone.
    pub upload_twice :
        (p : Panel V)
        → let q = upload server new_key p in
          ((k : String) (f : Failure)
            → q.idempotency_key ≡ some k
            → (server.save k q.server).0 ≡ rejected f
            → is_session_expired f ≡ false)
          → (photos q.server ≤ photos p.server + 1)
            × (photos (upload server new_key q).server ≤ photos p.server + 1)
    upload_twice p lives =
        let q = upload server new_key p in
        elim (upload-Out p) [
          | inl none' ↦ (
            omega (arith, none'),
            elim (upload-Out q) [
              | inl again ↦ omega (arith, again, none')
              | inr (again, _, _) ↦ omega (arith, again, none')
            ],
          )
          | inr (one', ready, (k, key, held)) ↦
              let more = upload-replayed q k ready key held (λ f e. lives k f key e) in
              (one', omega (arith, one', more))
        ]
