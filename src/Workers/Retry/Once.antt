-- ===== src/Workers/Retry/Once.antt =====
-- A request reaches the backend once.
use mini_company.Prelude.{
  ℕ, zero, suc, ◌+◌, ◌≤◌, ◌≡◌, ◌⊎◌, refl, sym, ◌∙◌, inl, inr, true, Option, none, some, List, [],
  ◌∷◌, ◌++◌, append_assoc, length, length-append, leb, All, All-append, Bool-cases, arith,
}
use mini_company.Workers.Client.{
  Client, Delivery, Failure, Reply, connect_error, connect_timeout, delivered, lost,
  lost_after_delivery, raised, read_status, read_timeout, status_error, nothing_tried, request,
  returned, unreachable, unreachable_in_time,
}
use mini_company.Workers.Retry.{
  backoff_delay, handle, is_retriable, max_delay, retry, with_connection_retry,
}
use mini_company.Company.World.{Action, Result-cases}

module _ {A : Type 0} (network : ℕ → Delivery) (action : Action A) where
  -- What one request comes to.
  data IsRequest (c : Client) : Reply A × Client → Type 0 where
    kept_out :
        (e : Failure)
        → is_retriable e ≡ true
        → IsRequest c (raised e, record c { sent = c.sent + 1 })
    was_lost : IsRequest c (raised read_timeout, record c { sent = c.sent + 1 })
    was_silent :
        IsRequest c
          (raised read_timeout, record c { backend = (action c.backend).1; sent = c.sent + 1 })
    was_answered : IsRequest c (
      read_status (action c.backend).0,
      record c { backend = (action c.backend).1; sent = c.sent + 1 },
    )

  request-IsRequest : (c : Client) → IsRequest c (request network action c)
  unfolding request
  request-IsRequest c = go (network c.sent) refl
    where
      go : (d : Delivery) → network c.sent ≡ d → IsRequest c (request network action c)
      go unreachable h = rw (request, h) (kept_out connect_error refl)
      go unreachable_in_time h = rw (request, h) (kept_out connect_timeout refl)
      go lost h = rw (request, h) was_lost
      go lost_after_delivery h = rw (request, h) was_silent
      go delivered h = rw (request, h) was_answered

  -- The action ran once at most: not at all where the call raises and the backend is what it was;
  -- once, and then its result is what returns, or the answer got lost. There were `attempts`
  -- requests at most, no more delays than requests, and none above eight seconds.
  pub record IsOnce (attempts : ℕ) (c : Client) (r : Reply A) (c' : Client) : Type 0 where
    pub ran :
        ((e : Failure) × (r ≡ raised e) × (c'.backend ≡ c.backend))
        ⊎ ((c'.backend ≡ (action c.backend).1)
            × ((r ≡ read_status (action c.backend).0) ⊎ (r ≡ raised read_timeout)))
    pub few : c'.sent ≤ c.sent + attempts
    pub delays : List ℕ
    pub waited : c'.slept ≡ delays ++ c.slept
    pub short : All (λ (d : ℕ). d ≤ max_delay) delays
    pub fewer : length delays + c.sent ≤ c'.sent

  backoff_delay-le : (attempt : ℕ) → backoff_delay attempt ≤ max_delay
  unfolding backoff_delay
  backoff_delay-le attempt = omega arith

  -- One request, and nothing after it.
  stops :
      (attempts : ℕ) (c : Client) (r : Reply A) (c' : Client)
      → ((e : Failure) × (r ≡ raised e) × (c'.backend ≡ c.backend))
        ⊎ ((c'.backend ≡ (action c.backend).1)
            × ((r ≡ read_status (action c.backend).0) ⊎ (r ≡ raised read_timeout)))
      → c'.sent ≡ c.sent + 1
      → c'.slept ≡ c.slept
      → IsOnce (suc attempts) c r c'
  stops attempts c r c' ran sent slept = record {
    ran = ran;
    few = omega (arith, sent);
    delays = [];
    waited = slept;
    short = tt;
    fewer = omega (arith, sent);
  }

  -- A request that was kept out, a delay, and what comes after.
  goes_on :
      (attempts delay : ℕ) (c : Client) (r : Reply A) (c' : Client)
      → delay ≤ max_delay
      → IsOnce attempts (record c { sent = c.sent + 1; slept = delay ∷ c.slept }) r c'
      → IsOnce (suc attempts) c r c'
  goes_on attempts delay c r c' le o = record {
    ran = o.ran;
    few = omega (arith, o.few);
    delays = o.delays ++ delay ∷ [];
    waited = o.waited ∙ sym (append_assoc o.delays (delay ∷ []) c.slept);
    short = All-append (λ (d : ℕ). d ≤ max_delay) o.delays (delay ∷ []) o.short (le, tt);
    fewer = omega (arith, o.fewer, length-append o.delays (delay ∷ []));
  }

  nothing-IsOnce :
      (last_error : Option Failure) (c : Client) → (e : Failure) → IsOnce 0 c (raised e) c
  nothing-IsOnce last_error c e = record {
    ran = inl (e, refl, refl);
    few = omega arith;
    delays = [];
    waited = refl;
    short = tt;
    fewer = omega arith;
  }

  module _ (max_attempts : ℕ) where
    abbrev after : ℕ → ℕ → Reply A × Client → Reply A × Client
    after remaining attempt s =
        let (r, c') = s in
        elim r [
          | returned a ↦ (returned a, c')
          | raised e ↦
              handle (request network action) max_attempts attempt e
                (retry (request network action) max_attempts remaining (attempt + 1) (some e)) c'
        ]

    after-IsOnce :
        (remaining attempt : ℕ) (c : Client) (s : Reply A × Client)
        → IsRequest c s
        → ((e : Failure) (c2 : Client)
            → let (r, c') =
                retry (request network action) max_attempts remaining (attempt + 1) (some e) c2 in
              IsOnce remaining c2 r c')
        → IsOnce (suc remaining) c (after remaining attempt s).0 (after remaining attempt s).1
    after-IsOnce remaining attempt c _ (kept_out e retriable) next =
        let c1 = record c { sent = c.sent + 1 } in
        elim (Bool-cases (leb max_attempts (attempt + 1))) [
          | inl over ↦
              rw (retriable, over) (stops remaining c (raised e) c1 (inl (e, refl, refl)) refl refl)
          | inr goes ↦
              rw (retriable, goes)
                (goes_on remaining (backoff_delay attempt) c _ _ (backoff_delay-le attempt) (
                  next e (record c { sent = c.sent + 1; slept = backoff_delay attempt ∷ c.slept })))
        ]
    after-IsOnce remaining attempt c _ was_lost next =
        stops remaining c (raised read_timeout) (record c { sent = c.sent + 1 })
          (inl (read_timeout, refl, refl)) refl refl
    after-IsOnce remaining attempt c _ was_silent next =
        stops remaining c (raised read_timeout)
          (record c { backend = (action c.backend).1; sent = c.sent + 1 }) (inr (refl, inr refl))
          refl refl
    after-IsOnce remaining attempt c _ was_answered next =
        elim (Result-cases (action c.backend).0) [
          | inl (a, made) ↦ rw made (
              stops remaining c (returned a)
                (record c { backend = (action c.backend).1; sent = c.sent + 1 })
                (inr (refl, inl (rw made))) refl refl)
          | inr (e, refused) ↦ rw refused (
              stops remaining c (raised status_error)
                (record c { backend = (action c.backend).1; sent = c.sent + 1 })
                (inr (refl, inl (rw refused))) refl refl)
        ]

    retry-IsOnce :
        (remaining attempt : ℕ) (last_error : Option Failure) (c : Client)
        → let (r, c') =
            retry (request network action) max_attempts remaining attempt last_error c in
          IsOnce remaining c r c'
    unfolding retry
    retry-IsOnce zero attempt none c = nothing-IsOnce none c nothing_tried
    retry-IsOnce zero attempt (some e) c = nothing-IsOnce (some e) c e
    retry-IsOnce (suc remaining) attempt last_error c =
        after-IsOnce remaining attempt c (request network action c) (request-IsRequest c)
          (λ e c2. retry-IsOnce remaining (attempt + 1) (some e) c2)

    -- However the network fails, `with_connection_retry` lets the backend do what is asked once at
    -- most: it raises and the backend is what it was, or the backend did it once, and its result
    -- is what comes back unless the answer got lost. It sends as many requests as attempts are
    -- allowed at most, and no delay between them is longer than eight seconds.
    pub with_connection_retry-IsOnce :
        (c : Client)
        → let (r, c') = with_connection_retry (request network action) max_attempts c in
          IsOnce max_attempts c r c'
    unfolding with_connection_retry
    with_connection_retry-IsOnce c = retry-IsOnce max_attempts 0 none c
