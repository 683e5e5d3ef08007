-- ===== src/Pipeline/Trace.antt =====
-- What the timing model should charge for a run, read off the list of its instructions.
use quanta.Common.{
  ℕ, ◌+◌, ◌/◌, ◌%◌, ◌^◌, ◌||◌, false, Bool, ◌&&◌, ◌==◌, if◌then◌else◌, nonzero, List, [], ◌∷◌,
  of_bool, suc,
}
use quanta.Pipeline.{Pipeline, pipeline_observe}

-- Each retired instruction, with whether control was redirected.
abbrev pub Trace : Type 0
Trace = List (ℕ × Bool)

-- The loop that feeds the model.
unfoldable pub observe_all : Pipeline → Trace → Pipeline
observe_all p [] = p
observe_all p ((inst, redirected) ∷ t) = observe_all (pipeline_observe p inst redirected) t

-- The formats of the base instructions that have register operands.
pub data Format : Type 0 where
  r_type i_type s_type b_type no_operands : Format

-- The format, by the number in the low seven bits.
unfoldable pub operand_format : ℕ → Format
operand_format op =
    if op == 0x33
    then r_type
    else if op == 0x13 || op == 0x03 || op == 0x67
    then i_type
    else if op == 0x23
    then s_type
    else if op == 0x63
    then b_type
    else no_operands

unfoldable pub operands : Format → ℕ → ℕ → List ℕ
operands r_type first second = first ∷ second ∷ []
operands i_type first second = first ∷ []
operands s_type first second = first ∷ second ∷ []
operands b_type first second = first ∷ second ∷ []
operands no_operands first second = []

unfoldable pub is_among : ℕ → List ℕ → Bool
is_among r [] = false
is_among r (a ∷ rest) = a == r || is_among r rest

-- Whether an instruction has a register among its operands, from the bits of the manual's tables.
unfoldable pub uses : ℕ → ℕ → Bool
uses inst r =
    is_among r
      (operands (operand_format (inst % 2 ^ 7)) (inst / 2 ^ 15 % 2 ^ 5) (inst / 2 ^ 20 % 2 ^ 5))

-- The register that an instruction loads; 0 for none.
abbrev pub load_target : ℕ → ℕ
load_target inst = if inst % 2 ^ 7 == 0x03 then inst / 2 ^ 7 % 2 ^ 5 else 0

-- How many instructions of those formats use what the one before them loads, but x0; `prev` is loaded
-- before the first.
unfoldable pub load_uses : ℕ → Trace → ℕ
load_uses prev [] = 0
load_uses prev ((inst, _) ∷ t) =
    of_bool (nonzero prev && uses inst prev) + load_uses (load_target inst) t

unfoldable pub redirects : Trace → ℕ
redirects [] = 0
redirects ((_, redirected) ∷ t) = of_bool redirected + redirects t

-- One cycle for a redirect by JAL, two for any other.
unfoldable pub penalties : Trace → ℕ
penalties [] = 0
penalties ((inst, redirected) ∷ t) =
    (if redirected then (if inst % 2 ^ 7 == 0x6f then 1 else 2) else 0) + penalties t

unfoldable pub count : Trace → ℕ
count [] = 0
count (_ ∷ t) = suc (count t)
