-- ===== src/Tls/Runs.antt =====
-- wifi/tls_client/tls_common.c: how a run of the TLS client ends.
use robotic_car_p3e.Prelude.{
  ℕ, ◌≡◌, refl, ap, ◌∙◌, Bool, true, false, Option, none, some, List, [], ◌∷◌, ◌++◌, if◌then◌else◌,
  ℤ, is_zero, arith, Bool-cases, inl, inr, Option-cases, ◌&&◌,
}
use robotic_car_p3e.Tls.Client.{
  Codes, Client, Event, resolved, connected, polled, failed, received, Run, returned, waiting,
  happen, await, tls_client_init, run_tls_client_test, err_inprogress, is_inprogress,
}

-- What one event comes to: nothing, or the end of the run with its result.
abbrev pub ends_with : Event → Option Bool
ends_with (resolved connect_err none) = some true
ends_with (resolved connect_err (some address)) = if is_zero connect_err then none else some true
ends_with (connected write_err err) = if is_zero err && is_zero write_err then none else some true
ends_with polled = some false
ends_with (failed err) = some false
ends_with (received none) = some true
ends_with (received (some payload)) = none

-- The result of the first event that ends the run.
abbrev pub first_end : List Event → Option Bool
first_end [] = none
first_end (e ∷ es) = let rest = first_end es in elim (ends_with e) [ none ↦ rest | some b ↦ some b ]

abbrev pub verdict : Client → Option Bool → Run
verdict s none = waiting s
verdict s (some b) = returned b

module _ (k : Codes) (close_err : ℤ) (timeout : is_zero k.timeout_error ≡ false)
    (generic : is_zero k.generic_error ≡ false) where
  happen-none : (e : Event) (s : Client) → ends_with e ≡ none → happen k close_err e s ≡ s
  unfolding happen
  happen-none (resolved connect_err none) s h = cc
  happen-none (resolved connect_err (some address)) s h = ground arith
  happen-none (connected write_err err) s h = ground arith
  happen-none polled s h = cc
  happen-none (failed err) s h = cc
  happen-none (received none) s h = cc
  happen-none (received (some payload)) s h = refl

  happen-some :
      (e : Event) (s : Client) (b : Bool)
      → is_zero s.error ≡ true
      → ends_with e ≡ some b
      → ((happen k close_err e s).complete ≡ true) × (is_zero (happen k close_err e s).error ≡ b)
  unfolding happen
  happen-some (resolved connect_err none) s b z h = ground arith
  happen-some (resolved connect_err (some address)) s b z h = ground arith
  happen-some (connected write_err err) s b z h = ground arith
  happen-some polled s b z h = ground arith
  happen-some (failed err) s b z h = ground arith
  happen-some (received none) s b z h = ground arith
  happen-some (received (some payload)) s b z h = cc

  await-complete :
      (es : List Event) (s : Client)
      → s.complete ≡ true
      → await k close_err es s ≡ returned (is_zero s.error)
  unfolding await
  await-complete [] s h = ground arith
  await-complete (e ∷ es) s h = ground arith

  await_lem :
      (es : List Event) (s : Client)
      → s.complete ≡ false
      → is_zero s.error ≡ true
      → await k close_err es s ≡ verdict s (first_end es)
  unfolding await
  await_lem [] s h z = ground arith
  await_lem (e ∷ es) s h z = ended (await_lem es s h z) (ends_with e) refl
    where
      ended :
          (later : await k close_err es s ≡ verdict s (first_end es)) (o : Option Bool)
          → ends_with e ≡ o
          → await k close_err (e ∷ es) s ≡ verdict s (first_end (e ∷ es))
      ended later none p =
          let next = ap (await k close_err es) (happen-none e s p) ∙ later in ground (arith, next)
      ended later (some b) p =
          let (done, b') = happen-some e s b z p in
          ground (arith, await-complete es (happen k close_err e s) done)

-- What follows a lookup: the address at once, later, or a call that C leaves undefined.
abbrev pub expected : ℤ → ℤ → List Event → Client → Run
expected connect_err dns_err es s =
    if is_zero dns_err
    then verdict s (first_end (resolved connect_err (some 0) ∷ es))
    else if is_inprogress dns_err
    then verdict s (first_end es)
    else Run.undefined

-- A run that has its control block returns what the first event that ends it says: false for a
-- timeout or an error of the connection, and true for anything else that ends it, be it that the
-- server closes the connection, or that the name has no address, that the connection cannot be
-- made or that the request cannot be written. With no such event it waits on in the state behind
-- the opening. A lookup that cannot begin is undefined. The SDK's codes for a timeout and a
-- generic error are not 0.
pub run_tls_client_test_lem :
    (k : Codes) (close_err connect_err dns_err : ℤ) (pcb : ℕ) (request : List ℕ) (timeout : ℕ)
    (es : List Event)
    → is_zero k.timeout_error ≡ false
    → is_zero k.generic_error ≡ false
    → run_tls_client_test k close_err connect_err dns_err (some pcb) request timeout es
      ≡ expected connect_err dns_err es
          (record (tls_client_init request timeout) { pcb = some pcb })
unfolding run_tls_client_test await
run_tls_client_test_lem k close_err connect_err dns_err pcb request timeout es t g =
    let start = record (tls_client_init request timeout) { pcb = some pcb } in
    let at_once = await_lem k close_err t g (resolved connect_err (some 0) ∷ es) start refl refl in
    let busy_later = await_lem k close_err t g es start refl refl in
    elim (Bool-cases (is_zero dns_err)) [
      | inl now ↦ rw now at_once
      | inr later ↦ rw later (elim (Bool-cases (is_inprogress dns_err)) [
        | inl busy ↦ rw busy busy_later
        | inr bad ↦ rw bad refl
      ])
    ]

first_end-polled : (es more : List Event) → (b : Bool) × (first_end (es ++ polled ∷ more) ≡ some b)
first_end-polled [] more = (false, refl)
first_end-polled (e ∷ es) more = elim (Option-cases (ends_with e)) [
  | inl p ↦ let (b, q) = first_end-polled es more in (b, rw (p, first_end) q)
  | inr (b, p) ↦ (b, rw (p, first_end) refl)
]

-- A run in which the poll for the timeout comes always returns, whatever comes before
-- and behind it, if the lookup goes on in the background.
pub run_tls_client_test-ends :
    (k : Codes) (close_err connect_err : ℤ) (pcb : ℕ) (request : List ℕ) (timeout : ℕ)
    (es more : List Event)
    → is_zero k.timeout_error ≡ false
    → is_zero k.generic_error ≡ false
    → (b : Bool) × (run_tls_client_test k close_err connect_err err_inprogress
          (some pcb)
          request
          timeout
          (es ++ polled ∷ more)
        ≡ returned b)
run_tls_client_test-ends k close_err connect_err pcb request timeout es more t g =
    let start = record (tls_client_init request timeout) { pcb = some pcb } in
    let (b, p) = first_end-polled es more in
    (
      b,
      run_tls_client_test_lem k close_err connect_err err_inprogress pcb request timeout
            (es ++ polled ∷ more) t g
          ∙ ap (verdict start) p,
    )
