-- ===== src/Module/Lease/Attempts.antt =====
-- Which STOP calls `cleanup_worker` of crates/tinybus/src/module/lease.rs makes.
use mathlib.Core.Path.{subst}
use tinybus.Prelude.{
  ◌==◌, eq_iff, nat_eq, ℕ, zero, suc, ◌+◌, ◌≤◌, ◌<◌, ◌≡◌, refl, sym, ap, ◌∙◌, ◌⊎◌, inl, inr, true,
  some, List, [], ◌∷◌, ◌++◌, arith, length, append_assoc, append-nil, Bool-cases, Option-cases,
}
use tinybus.Module.Lease.{
  FaultTest, Attempt, Worker, mark_unacknowledged, check_fault, call_stop, attempt_stop,
  cleanup_worker,
}
use tinybus.Module.Lease.Cleanup.{allows_retry, attempt_stop-IsFailed}

-- The numbers of so many attempts in a row.
abbrev pub in_a_row : ℕ → ℕ → List ℕ
in_a_row n zero = []
in_a_row n (suc k) = n ∷ in_a_row (n + 1) k

module _ {E : Type 0} where
  attempt_stop-stops :
      (a : Attempt E) (n : ℕ) (w : Worker E)
      → ((attempt_stop a n w).0.stops ≡ w.stops)
        ⊎ ((attempt_stop a n w).0.stops ≡ w.stops ++ n ∷ [])
  unfolding attempt_stop check_fault call_stop mark_unacknowledged
  attempt_stop-stops a n w = ground arith

  -- A failed attempt did call STOP.
  attempt_stop-called :
      (a : Attempt E) (n : ℕ) (w : Worker E) (e : E)
      → (attempt_stop a n w).1 ≡ some e
      → (attempt_stop a n w).0.stops ≡ w.stops ++ n ∷ []
  unfolding attempt_stop check_fault call_stop mark_unacknowledged
  attempt_stop-called a n w e h = ground (arith, h)

  check_fault-stops : (w : Worker E) (n : ℕ) (t : FaultTest) → (check_fault w n t).0.stops ≡ w.stops
  unfolding check_fault mark_unacknowledged
  check_fault-stops w n FaultTest.sound = refl
  check_fault-stops w n FaultTest.faulted = refl
  check_fault-stops w n FaultTest.panicked = refl

  abbrev pub IsCalled : (ℕ → Attempt E) → List ℕ → ℕ → List ℕ → List ℕ → Type 0
  IsCalled env delays n before stops =
      (k : ℕ) × (k ≤ length delays + 1)
      × (stops ≡ before ++ in_a_row n k)
      × ((j : ℕ) → n ≤ j → j + 1 < n + k → allows_retry (env j) ≡ true)

  once :
      (env : ℕ → Attempt E) (delays : List ℕ) (n : ℕ) (w : Worker E)
      → IsCalled env delays n w.stops (attempt_stop (env n) n w).0.stops
  once env delays n w = elim (attempt_stop-stops (env n) n w) [
    | inl e ↦
        (0, omega arith, e ∙ sym (append-nil w.stops), λ j le lt. absurd (omega (arith, le, lt)))
    | inr e ↦ (1, omega arith, e, λ j le lt. absurd (omega (arith, le, lt)))
  ]

  by_number :
      (env : ℕ → Attempt E) (n k j : ℕ)
      → n ≤ j
      → j + 1 < n + suc k
      → allows_retry (env n) ≡ true
      → (n + 1 ≤ j → j + 1 < n + 1 + k → allows_retry (env j) ≡ true)
      → allows_retry (env j) ≡ true
  by_number env n k j le lt now later = elim (Bool-cases (n == j)) [
    | inl y ↦ subst (λ i. allows_retry (env i) ≡ true) ((eq_iff n j).0 y) now
    | inr no_more ↦ later (ground (arith, le, no_more)) (omega (arith, lt))
  ]

  -- The STOP calls of a cleanup worker are numbered one after the other from its first attempt on,
  -- there is at most one more of them than there are delays, and each but the last failed in a way
  -- that allows another one.
  pub cleanup_worker-IsCalled :
      (env : ℕ → Attempt E) (delays : List ℕ) (n : ℕ) (w : Worker E)
      → IsCalled env delays n w.stops (cleanup_worker env delays n w).stops
  unfolding cleanup_worker mark_unacknowledged
  cleanup_worker-IsCalled env [] n w = elim (Option-cases (attempt_stop (env n) n w).1) [
    | inl e ↦ rw (e, cleanup_worker) (once env [] n w)
    | inr (x, e) ↦ rw (e, cleanup_worker) (once env [] n w)
  ]
  cleanup_worker-IsCalled env (delay ∷ delays) n w =
      elim (Option-cases (attempt_stop (env n) n w).1) [
        | inl e ↦ rw (e, cleanup_worker) (once env (delay ∷ delays) n w)
        | inr (x, e) ↦
            let stopped = (attempt_stop (env n) n w).0 in
            let tested = (check_fault stopped n (env n).after).0 in
            let f = attempt_stop-IsFailed (env n).before (env n).after (env n).stop n w x e in
            elim (Bool-cases (check_fault stopped n (env n).after).1) [
              | inr fault ↦
                  rw (e, fault, cleanup_worker)
                    (subst (IsCalled env (delay ∷ delays) n w.stops)
                      (sym (check_fault-stops stopped n (env n).after))
                      (once env (delay ∷ delays) n w))
              | inl fine ↦
                  let next = record tested { slept = tested.slept ++ (delay ∷ []) } in
                  let (k, few, called, retried) = cleanup_worker-IsCalled env delays (n + 1) next in
                  let first =
                    check_fault-stops stopped n (env n).after
                    ∙ attempt_stop-called (env n) n w x e in
                  rw (e, fine, cleanup_worker)
                    (
                      suc k,
                      omega (arith, few),
                      called
                          ∙ (ap (λ xs. xs ++ in_a_row (n + 1) k) first
                              ∙ append_assoc w.stops (n ∷ []) (in_a_row (n + 1) k)),
                      λ j le lt. by_number env n k j le lt f.retried (retried j),
                    )
            ]
      ]
