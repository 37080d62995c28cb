-- ===== src/Agents/Watchdog.antt =====
-- How the watchdog loop of the encoder agent ends.
use airgap_videowall.Prelude.{
  ℕ, zero, suc, ◌+◌, ◌*◌, ◌≤◌, ◌<◌, ◌≡◌, refl, sym, ap, ◌∙◌, ◌⊎◌, inl, inr, true, false, Option,
  some, arith, ltb, if◌then◌else◌, Bool-cases, ◌==◌, nat_eq,
}
use airgap_videowall.Values.{ℤ, pos, int_eq}
use airgap_videowall.Agents.Encoder.{
  State, watchdog, delay, is_zero, failed_run, last_run, main_loop, max_restarts,
}

-- the seconds slept after `n` runs: 5, 10, 15, 20, 25, and 30 after every later one
unfoldable pub delays : ℕ → ℕ
delays zero = 0
delays (suc n) = delays n + (if ltb n 5 then 5 * (n + 1) else 30)

delay_lem : (i : ℕ) → delay i ≡ (if ltb i 5 then 5 * (i + 1) else 30)
unfolding delay
delay_lem i = ground arith

-- A run that failed, with an exit code that is not 0.
abbrev pub Fails : Option ℤ → Type 0
Fails o = (rc : ℤ) × (o ≡ some rc) × (is_zero rc ≡ false)

-- The counters before run `i`.
record Counted (s : State) (i : ℕ) : Type 0 where
  restarts : s.restarts ≡ i
  runs : s.runs ≡ i
  slept : s.slept ≡ delays i

-- How the loop of `total` runs ends when `n` runs have failed.
pub record EndsAfter (total n : ℕ) (r : State × Option ℕ) : Type 0 where
  pub restarts : r.0.restarts ≡ n
  pub slept : r.0.slept ≡ delays n
  pub runs : r.0.runs ≡ (if n == total then n else n + 1)
  pub exit : r.1 ≡ some (if n == total then 1 else 0)

module _ (exits : ℕ → Option ℤ) where
  fails_run :
      (left i : ℕ) (rc : ℤ) (s : State)
      → exits i ≡ some rc
      → is_zero rc ≡ false
      → watchdog exits i (suc left) s ≡ watchdog exits (suc i) left (failed_run i rc s)
  unfolding watchdog
  fails_run left i rc s e z = rw (watchdog, e, z) refl

  ends_run :
      (left i : ℕ) (s : State)
      → exits i ≡ some (pos 0)
      → watchdog exits i (suc left) s ≡ (last_run (pos 0) s, some 0)
  unfolding watchdog
  ends_run left i s e = rw (watchdog, e) refl

  watchdog_ends :
      (left i n : ℕ) (s : State)
      → Counted s i
      → i ≤ n
      → n ≤ i + left
      → ((m : ℕ) → i ≤ m → m < n → Fails (exits m))
      → (n ≡ i + left) ⊎ (exits n ≡ some (pos 0))
      → EndsAfter (i + left) n (watchdog exits i left s)
  unfolding watchdog failed_run last_run delays
  watchdog_ends zero i n s c le ge fails last =
      let same : n ≡ i = omega arith in
      let total : (n == i + 0) ≡ true = ground arith in
      record {
        restarts = c.restarts ∙ sym same;
        slept = c.slept ∙ ap delays (sym same);
        runs = rw total (c.runs ∙ sym same);
        exit = rw total refl;
      }
  watchdog_ends (suc left) i n s c le ge fails last = elim (Bool-cases (i == n)) [
    | inl e ↦
        let same : i ≡ n = ground arith in
        let done : exits i ≡ some (pos 0) = elim last [
          | inl q ↦ absurd (omega arith)
          | inr q ↦ rw same q
        ] in
        let short : (n == i + suc left) ≡ false = ground arith in
        rw (ends_run left i s done) (record {
          restarts = c.restarts ∙ same;
          slept = c.slept ∙ ap delays same;
          runs = rw short (ap (λ (k : ℕ). k + 1) (c.runs ∙ same));
          exit = rw short refl;
        })
    | inr e ↦
        let (rc, is, z) = fails i (omega arith) (ground arith) in
        let more : suc i + left ≡ i + suc left = omega arith in
        let c' : Counted (failed_run i rc s) (suc i) = record {
          restarts = omega (arith, c.restarts);
          runs = omega (arith, c.runs);
          slept =
              rw (delay_lem i) (ap (λ (k : ℕ). k + (if ltb i 5 then 5 * (i + 1) else 30)) c.slept);
        } in
        let last' : (n ≡ suc i + left) ⊎ (exits n ≡ some (pos 0)) = elim last [
          | inl q ↦ inl (omega arith)
          | inr q ↦ inr q
        ] in
        rw (fails_run left i rc s is z, ← more)
          (watchdog_ends left (suc i) n (failed_run i rc s) c' (ground arith) (omega arith)
            (λ m a b. fails m (omega arith) b) last')
  ]

  -- The agent ends with 0 after the first run of the pipeline that exits with 0, or with 1 after
  -- eleven runs that did not: it has then counted as many restarts as runs failed, and slept 5 seconds
  -- after the first of them, 10 after the second, 15, 20, 25, and 30 after each further one.
  pub main_loop-ends :
      (n : ℕ) (s : State)
      → s.restarts ≡ 0
      → s.runs ≡ 0
      → s.slept ≡ 0
      → n ≤ 11
      → ((m : ℕ) → m < n → Fails (exits m))
      → (n ≡ 11) ⊎ (exits n ≡ some (pos 0))
      → EndsAfter 11 n (main_loop exits s)
  unfolding main_loop delays
  main_loop-ends n s r u l le fails last =
      watchdog_ends (max_restarts + 1) 0 n s (record { restarts = r; runs = u; slept = l })
        (omega arith) (omega arith) (λ m _ b. fails m b) last
