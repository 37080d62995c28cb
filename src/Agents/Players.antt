-- ===== src/Agents/Players.antt =====
-- agents/tile-player/vw_tile_player.py and agents/big-player/vw_big_player.py: the command of a player
-- and the loop that runs it again. What each run ends with is a parameter, numbered from 0, `none`
-- where it cannot be started; so is what the system finds for the name of a program.
use airgap_videowall.Agents.Watchdog.{Fails}
use airgap_videowall.Agents.Encoder.{delay, max_restarts, is_zero}
use airgap_videowall.Agents.Wallctl.Settings.{rstrip_slash}
use airgap_videowall.Values.{int_eq, ℤ, pos}
use airgap_videowall.Prelude.Text.{concat, lower}
use airgap_videowall.Prelude.{
  ℕ, zero, suc, ◌+◌, ◌≤◌, String, ◌≡◌, ap, ◌∙◌, subst, inl, inr, true, Option, none, some, List, [],
  ◌∷◌, ◌++◌, arith, if◌then◌else◌, Bool-cases, ◌==◌, string_eq, eq_of_beq, all, nat_eq,
}

-- shutil.which(name) or name
unfoldable pub program : (String → Option String) → String → String
program which name = elim (which name) [
  | none ↦ name
  | some path ↦ if path == "" then name else path
]

-- `if display: cmd += …`
unfoldable pub screen_args : Option String → List String
unfolding concat
screen_args none = []
screen_args (some d) = if d == "" then [] else concat ("--screen=" ∷ d ∷ []) ∷ []

-- `build_mpv_cmd`
unfoldable pub build_mpv_cmd :
    (String → Option String) → String → String → Option String → List String
unfolding program screen_args rstrip_slash concat
build_mpv_cmd which sfu_url room_id display =
    (program which "mpv"
      ∷ "--no-terminal"
      ∷ "--fullscreen"
      ∷ "--really-quiet"
      ∷ concat (rstrip_slash sfu_url ∷ "/play/" ∷ room_id ∷ [])
      ∷ [])
    ++ screen_args display

-- `build_cmd` of the big player, which does not use the display
unfoldable pub build_cmd : (String → Option String) → String → String → List String
unfolding program lower
build_cmd which mode stream_url =
    if lower mode == "srt"
    then program which "ffplay"
      ∷ "-fflags"
      ∷ "nobuffer"
      ∷ "-flags"
      ∷ "low_delay"
      ∷ "-probesize"
      ∷ "32"
      ∷ "-analyzeduration"
      ∷ "0"
      ∷ stream_url
      ∷ []
    else program which "mpv" ∷ "--no-terminal" ∷ "--fullscreen" ∷ "--really-quiet" ∷ stream_url ∷ []

-- The loop of `run_with_watchdog` and `run_watchdog`, from run `i` with `left` restarts that remain:
-- the seconds slept so far, and the exit code, `none` where an exception ends it.
unfoldable pub run_from : (ℕ → Option ℤ) → ℕ → ℕ → ℕ → ℕ × Option ℤ
unfolding delay
run_from exits i zero slept = elim (exits i) [
  | none ↦ (slept, none)
  | some rc ↦ if is_zero rc then (slept, some (pos 0)) else (slept, some rc)
]
run_from exits i (suc left) slept = elim (exits i) [
  | none ↦ (slept, none)
  | some rc ↦
      let again = run_from exits (suc i) left (slept + delay i) in
      if is_zero rc then (slept, some (pos 0)) else again
]

unfoldable pub run_with_watchdog : (ℕ → Option ℤ) → ℕ × Option ℤ
unfolding run_from
run_with_watchdog exits = run_from exits 0 max_restarts 0

-- A run that was started.
abbrev pub IsStarted : Option ℤ → Type 0
IsStarted o = (rc : ℤ) × (o ≡ some rc)

-- How a sequence of runs ends: with 0 if one of them does, or with the code of the last.
pub data Ends (exits : ℕ → Option ℤ) (i left : ℕ) : Option ℤ → Type 0 where
  well : (n : ℕ) → i ≤ n → n ≤ i + left → exits n ≡ some (pos 0) → Ends exits i left (some (pos 0))
  badly :
      (rc : ℤ)
      → exits (i + left) ≡ some rc
      → ((n : ℕ) → i ≤ n → n ≤ i + left → Fails (exits n))
      → Ends exits i left (some rc)

module _ (exits : ℕ → Option ℤ) where
  ended :
      (i left : ℕ) (rc : ℤ)
      → exits i ≡ some rc
      → is_zero rc ≡ true
      → Ends exits i left (some (pos 0))
  ended i left rc e z = well i (omega arith) (omega arith) (e ∙ ap some (eq_of_beq rc (pos 0) z))

  -- the runs after one that failed
  later :
      (i left : ℕ) {o : Option ℤ}
      → Fails (exits i)
      → Ends exits (suc i) left o
      → Ends exits i (suc left) o
  later i left f (well n lo hi e) = well n (omega arith) (omega arith) e
  later i left f (badly rc e all) =
      let more : suc i + left ≡ i + suc left = omega arith in
      badly rc (subst (λ n. exits n ≡ some rc) more e) λ n lo hi. elim (Bool-cases (i == n)) [
        | inl same ↦ subst (λ k. Fails (exits k)) (eq_of_beq i n same) f
        | inr other ↦ all n (ground arith) (omega arith)
      ]

  run_from-Ends :
      (i left slept : ℕ)
      → ((n : ℕ) → i ≤ n → n ≤ i + left → IsStarted (exits n))
      → Ends exits i left (run_from exits i left slept).1
  unfolding run_from
  run_from-Ends i zero slept starts =
      let (rc, e) = starts i (omega arith) (omega arith) in
      elim (Bool-cases (is_zero rc)) [
        | inl z ↦ rw (run_from, e, z) (ended i 0 rc e z)
        | inr z ↦
            rw (run_from, e, z)
              (badly rc (subst (λ n. exits n ≡ some rc) (omega arith) e) λ n lo hi.
                let same : i ≡ n = omega arith in subst (λ k. Fails (exits k)) same (rc, e, z))
      ]
  run_from-Ends i (suc left) slept starts =
      let (rc, e) = starts i (omega arith) (omega arith) in
      elim (Bool-cases (is_zero rc)) [
        | inl z ↦ rw (run_from, e, z) (ended i (suc left) rc e z)
        | inr z ↦
            rw (run_from, e, z)
              (later i left (rc, e, z)
                (run_from-Ends (suc i) left (slept + delay i)
                  λ n lo hi. starts n (omega arith) (omega arith)))
      ]

  -- If every run of the player can be started, the wrapper ends: with 0 if one of the first eleven runs
  -- does, and else, after they have all failed, with the code of the last of them.
  pub run_with_watchdog-Ends :
      ((n : ℕ) → n ≤ max_restarts → IsStarted (exits n))
      → Ends exits 0 max_restarts (run_with_watchdog exits).1
  unfolding run_with_watchdog
  run_with_watchdog-Ends starts = run_from-Ends 0 max_restarts 0 (λ n _ le. starts n (omega arith))
