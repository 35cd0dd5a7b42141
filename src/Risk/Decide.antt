-- ===== src/Risk/Decide.antt =====
-- What pg_circuit_finalize_assessment of src/risk_engine.c decides.
use pg_circuit.Prelude.{ℕ, ◌≤◌, ◌≡◌, ◌≢◌, ◌↔◌, ◌⊎◌, ℤ, pos, ◌≤ℤ◌, leb_ℤ, arith}
use pg_circuit.Types.{Mode, Decision, decision_rank, level_rank}
use pg_circuit.Config.{Config}
use pg_circuit.Reporting.{score_to_level}
use pg_circuit.Risk.{Assessment, clamp_score, finalize_assessment, decide_mode}

-- The final score lies in 0 .. 100: it is the score before where that lies there, 0 where that is
-- negative, and 100 where that is higher.
finalize_assessment-bounds :
    {D : Type 0} (c : Config) (a : Assessment D)
    → let score = (finalize_assessment c a).score in
      (pos 0 ≤ℤ score)
      × (score ≤ℤ pos 100)
      × ((score ≡ a.score)
          ⊎ ((a.score ≤ℤ pos 0) × (score ≡ pos 0))
          ⊎ ((pos 100 ≤ℤ a.score) × (score ≡ pos 100)))
unfolding finalize_assessment
finalize_assessment-bounds c a = ground arith

-- The decision is BLOCK exactly in enforce mode at a score of the block threshold or more.
finalize_assessment-blocks :
    {D : Type 0} (c : Config) (a : Assessment D)
    → ((finalize_assessment c a).decision ≡ Decision.block)
      ↔ ((c.mode ≡ Mode.enforce) × (c.risk_block_threshold ≤ℤ (finalize_assessment c a).score))
unfolding finalize_assessment
finalize_assessment-blocks c a = ground arith

-- The decision is WARN exactly at a score of the warn threshold or more, outside observe mode, and
-- where it is not BLOCK.
finalize_assessment-warns :
    {D : Type 0} (c : Config) (a : Assessment D)
    → ((finalize_assessment c a).decision ≡ Decision.warn) ↔ (
        (c.mode ≢ Mode.observe)
        × (c.risk_warn_threshold ≤ℤ (finalize_assessment c a).score)
        × ((finalize_assessment c a).decision ≢ Decision.block))
unfolding finalize_assessment
finalize_assessment-warns c a = ground arith

-- An assessment that is decided under `c` at the score `raw`: its score is `raw` cut to 0 .. 100, and
-- the thresholds are compared with that.
pub record IsDecided {D : Type 0} (c : Config) (raw : ℤ) (a : Assessment D) : Type 0 where
  pub bounds : (pos 0 ≤ℤ a.score) × (a.score ≤ℤ pos 100)
  pub cut :
      (a.score ≡ raw)
      ⊎ ((raw ≤ℤ pos 0) × (a.score ≡ pos 0))
      ⊎ ((pos 100 ≤ℤ raw) × (a.score ≡ pos 100))
  pub blocks :
      (a.decision ≡ Decision.block)
      ↔ ((c.mode ≡ Mode.enforce) × (c.risk_block_threshold ≤ℤ a.score))
  pub warns : (a.decision ≡ Decision.warn) ↔ (
      (c.mode ≢ Mode.observe) × (c.risk_warn_threshold ≤ℤ a.score) × (a.decision ≢ Decision.block))

-- The final score is the score before, cut to 0 .. 100; the decision is BLOCK exactly in enforce mode at
-- a final score of the block threshold or more, and WARN exactly at a final score of the warn threshold or
-- more, outside observe mode, and where it is not BLOCK.
pub finalize_assessment-IsDecided :
    {D : Type 0} (c : Config) (a : Assessment D) → IsDecided c a.score (finalize_assessment c a)
finalize_assessment-IsDecided c a =
    let (low, high, cut) = finalize_assessment-bounds c a in
    record {
      bounds = (low, high);
      cut = cut;
      blocks = finalize_assessment-blocks c a;
      warns = finalize_assessment-warns c a;
    }

clamp_score_mono : (x y : ℤ) → x ≤ℤ y → clamp_score x ≤ℤ clamp_score y
unfolding clamp_score
clamp_score_mono x y h = ground arith

score_to_level_mono :
    (x y : ℤ) → x ≤ℤ y → level_rank (score_to_level x) ≤ level_rank (score_to_level y)
unfolding score_to_level
score_to_level_mono x y h = ground arith

-- The decision at a score, apart from the assessment that holds it.
decide_at : Config → ℤ → Decision
decide_at c score =
    decide_mode c.mode (leb_ℤ c.risk_warn_threshold score) (leb_ℤ c.risk_block_threshold score)

decide_at_mono :
    (c : Config) (x y : ℤ) → x ≤ℤ y → decision_rank (decide_at c x) ≤ decision_rank (decide_at c y)
unfolding decide_at decide_mode
decide_at_mono c x y h = ground arith

-- A higher score never gets a milder decision or a lower level.
finalize_assessment_mono :
    {D : Type 0} (c : Config) (a b : Assessment D)
    → a.score ≤ℤ b.score
    → (decision_rank (finalize_assessment c a).decision
        ≤ decision_rank (finalize_assessment c b).decision)
      × (level_rank (finalize_assessment c a).level ≤ level_rank (finalize_assessment c b).level)
unfolding finalize_assessment decide_at
finalize_assessment_mono c a b h =
    let clamped = clamp_score_mono a.score b.score h in
    (
      decide_at_mono c (clamp_score a.score) (clamp_score b.score) clamped,
      score_to_level_mono (clamp_score a.score) (clamp_score b.score) clamped,
    )

abbrev pub mode_rank : Mode → ℕ
mode_rank Mode.observe = 0
mode_rank Mode.warn = 1
mode_rank Mode.enforce = 2

-- With all else equal, observe mode is never stricter than warn mode, nor warn than enforce;
-- observe mode always allows and warn mode never blocks.
finalize_assessment-mode :
    {D : Type 0} (c : Config) (m n : Mode) (a : Assessment D)
    → mode_rank m ≤ mode_rank n
    → (decision_rank (finalize_assessment (record c { mode = m }) a).decision
        ≤ decision_rank (finalize_assessment (record c { mode = n }) a).decision)
      × (decision_rank (finalize_assessment (record c { mode = m }) a).decision ≤ mode_rank m)
unfolding finalize_assessment
finalize_assessment-mode c m n a h = ground arith

-- With the same thresholds, a mode that is at least as strict and a score that is at least as high never
-- get a milder decision or a lower level; observe mode always allows and warn mode never blocks.
pub finalize_assessment_stricter :
    {D : Type 0} (c : Config) (m n : Mode) (a b : Assessment D)
    → mode_rank m ≤ mode_rank n
    → a.score ≤ℤ b.score
    → let x = finalize_assessment (record c { mode = m }) a in
      let y = finalize_assessment (record c { mode = n }) b in
      (decision_rank x.decision ≤ decision_rank y.decision)
      × (level_rank x.level ≤ level_rank y.level)
      × (decision_rank x.decision ≤ mode_rank m)
unfolding finalize_assessment
finalize_assessment_stricter c m n a b stricter higher =
    let (decision, level) = finalize_assessment_mono (record c { mode = m }) a b higher in
    let (decision', _) = finalize_assessment-mode c m n b stricter in
    (omega (arith, decision, decision'), level, (finalize_assessment-mode c m n a stricter).1)
