-- ===== src/Predictor/Designs/Validity.antt =====
-- The invariants of the table-based designs: counters in 0..3, tables of the configured size,
-- histories and indices within their tables, and a bounded return-address stack.
use Prim.Native.Nat.{bit_or}
use native.Mathlib.Nat.{mod-lt, one-le-pow}
use risc_e.Base.{
  ℕ, ◌+◌, ◌-◌, ◌*◌, ◌%◌, ◌^◌, ◌≤◌, ◌<◌, ◌≡◌, arith, Bool, List, length, get_or, set, replicate, All,
  length-set, length-replicate, All-set, All-get_or, All-replicate, if◌then◌else◌, ◌∙◌, ap,
  Bool-cases, inl, inr,
}
use risc_e.Base.Bits.{bit_and_mask, bit_and-le, bit_or_sum}
use risc_e.Predictor.Context.{BranchContext, Resolution, is_conditional_branch}
use risc_e.Predictor.Counter.{
  IsCounter, train, train-IsCounter, saturating_increment, saturating_decrement,
}
use risc_e.Predictor.Calls.{resolve_call_return-IsBounded}
use risc_e.Predictor.Stack.{IsBounded}
use risc_e.Predictor.Designs.TwoBit
use risc_e.Predictor.Designs.TwoBit.{TwoBit}
use risc_e.Predictor.Designs.Gshare
use risc_e.Predictor.Designs.Gshare.{Gshare, shift_history}
use risc_e.Predictor.Designs.Tournament
use risc_e.Predictor.Designs.Tournament.{Tournament}

-- A table of counters: its size and the range of its entries.
abbrev pub IsTable : ℕ → List ℕ → Type 0
IsTable size table = (length table ≡ size) × All IsCounter table

train-IsTable :
    (size : ℕ) (table : List ℕ) (i : ℕ) (taken : Bool)
    → IsTable size table
    → IsTable size (set table i (train taken (get_or table i 0)))
train-IsTable size table i taken h = (
  length-set table i _ ∙ h.0,
  All-set IsCounter table i _ h.1
      (train-IsCounter taken _ (All-get_or IsCounter table i 0 h.1 (omega arith))),
)

pub fresh-IsTable : (size : ℕ) → IsTable size (replicate size 2)
fresh-IsTable size = (length-replicate size 2, All-replicate IsCounter size 2 (omega arith))

pub record IsTwoBit (s : TwoBit) : Type 0 where
  pub positive : 0 < s.table_size
  pub table : IsTable s.table_size s.counters
  pub bounded : IsBounded s.ras

-- The hashed index is within the table.
pub index-lt_two_bit : (s : TwoBit) (pc : ℕ) → IsTwoBit s → TwoBit.index s pc < length s.counters
unfolding TwoBit.index
index-lt_two_bit s pc v = omega (arith, bit_and-le _ (length s.counters - 1), v.positive, v.table.0)

-- Learning keeps the two-bit predictor's invariant.
pub resolve-IsTwoBit :
    (s : TwoBit) (ctx : BranchContext) (res : Resolution)
    → IsTwoBit s
    → IsTwoBit (TwoBit.resolve s ctx res)
unfolding TwoBit.resolve
resolve-IsTwoBit s ctx res v = elim (Bool-cases (is_conditional_branch ctx)) [
  | inl b ↦ rw b (record {
    positive = v.positive;
    table = train-IsTable s.table_size s.counters (TwoBit.index s ctx.pc) res.taken v.table;
    bounded = v.bounded;
  })
  | inr b ↦ rw b (record {
    positive = v.positive;
    table = v.table;
    bounded = resolve_call_return-IsBounded ctx res s.ras v.bounded;
  })
]

pub record IsGshare (s : Gshare) : Type 0 where
  pub bits : (1 ≤ s.history_bits) × (s.history_bits ≤ 16)
  pub mask : s.history_mask ≡ 2 ^ s.history_bits - 1
  pub history : s.global_history < 2 ^ s.history_bits
  pub table : IsTable (2 ^ s.history_bits) s.counters
  pub bounded : IsBounded s.ras

pub shift_history_lem :
    (bits history : ℕ) (taken : Bool)
    → history < 2 ^ 31
    → shift_history (2 ^ bits - 1) history taken
      ≡ (history * 2 + (if taken then 1 else 0)) % 2 ^ bits
unfolding shift_history
shift_history_lem bits history taken h =
    bit_and_mask bits _
    ∙ ap (λ (t : ℕ). t % 2 ^ bits) (joined (if taken then 1 else 0) (ground arith))
  where
    joined : (t : ℕ) → t < 2 → bit_or (history * 2 ^ 1 % 2 ^ 32) t ≡ history * 2 + t
    joined t small = ground (arith, bit_or_sum 1 history t)

shift_history-lt :
    (bits history : ℕ) (taken : Bool) → shift_history (2 ^ bits - 1) history taken < 2 ^ bits
unfolding shift_history
shift_history-lt bits history taken =
    rw (bit_and_mask bits _) (mod-lt _ (one-le-pow bits 2 (omega arith)))

-- Learning keeps the gshare invariant: the history stays an index of the table.
resolve-IsGshare :
    (s : Gshare) (ctx : BranchContext) (res : Resolution)
    → IsGshare s
    → IsGshare (Gshare.resolve s ctx res)
unfolding Gshare.resolve
resolve-IsGshare s ctx res v = elim (Bool-cases (is_conditional_branch ctx)) [
  | inl b ↦ rw b (record {
    bits = v.bits;
    mask = v.mask;
    history = rw v.mask (shift_history-lt s.history_bits s.global_history res.taken);
    table = train-IsTable (2 ^ s.history_bits) s.counters (Gshare.index s ctx.pc) res.taken v.table;
    bounded = v.bounded;
  })
  | inr b ↦ rw b (record {
    bits = v.bits;
    mask = v.mask;
    history = v.history;
    table = v.table;
    bounded = resolve_call_return-IsBounded ctx res s.ras v.bounded;
  })
]

pub record IsTournament (s : Tournament) : Type 0 where
  pub bits : (1 ≤ s.history_bits) × (s.history_bits ≤ 16)
  pub mask : s.history_mask ≡ 2 ^ s.history_bits - 1
  pub history : s.global_history < 2 ^ s.history_bits
  pub local_size : length s.local_history ≡ 2 ^ s.history_bits
  pub local_entries : All (λ h. h < 2 ^ s.history_bits) s.local_history
  pub local_table : IsTable (2 ^ s.history_bits) s.local_pht
  pub global_table : IsTable (2 ^ s.history_bits) s.global_pht
  pub choice_table : IsTable (2 ^ s.history_bits) s.choice_pht
  pub bounded : IsBounded s.ras

adjust_choice-IsCounter :
    (l g t : Bool) (c : ℕ) → IsCounter c → IsCounter (Tournament.adjust_choice l g t c)
unfolding Tournament.adjust_choice saturating_increment saturating_decrement
adjust_choice-IsCounter l g t c h = ground arith

adjust-IsTable :
    (size : ℕ) (table : List ℕ) (i : ℕ) (l g t : Bool)
    → IsTable size table
    → IsTable size (set table i (Tournament.adjust_choice l g t (get_or table i 0)))
adjust-IsTable size table i l g t h = (
  length-set table i _ ∙ h.0,
  All-set IsCounter table i _ h.1
      (adjust_choice-IsCounter l g t _ (All-get_or IsCounter table i 0 h.1 (omega arith))),
)

-- Learning keeps the tournament invariant: both histories stay indices of their tables.
resolve-IsTournament :
    (s : Tournament) (ctx : BranchContext) (res : Resolution)
    → IsTournament s
    → IsTournament (Tournament.resolve s ctx res)
unfolding Tournament.resolve
resolve-IsTournament s ctx res v = elim (Bool-cases (is_conditional_branch ctx)) [
  | inl b ↦ rw b (record {
    bits = v.bits;
    mask = v.mask;
    history = rw v.mask (shift_history-lt s.history_bits s.global_history res.taken);
    local_size = length-set s.local_history _ _ ∙ v.local_size;
    local_entries =
        All-set (λ h. h < 2 ^ s.history_bits) s.local_history _ _ v.local_entries
          (rw v.mask (shift_history-lt s.history_bits _ res.taken));
    local_table =
        train-IsTable (2 ^ s.history_bits) s.local_pht (Tournament.local_hist s ctx.pc) res.taken
          v.local_table;
    global_table =
        train-IsTable (2 ^ s.history_bits) s.global_pht s.global_history res.taken v.global_table;
    choice_table =
        adjust-IsTable (2 ^ s.history_bits) s.choice_pht s.global_history _ _ res.taken
          v.choice_table;
    bounded = v.bounded;
  })
  | inr b ↦ rw b (record {
    bits = v.bits;
    mask = v.mask;
    history = v.history;
    local_size = v.local_size;
    local_entries = v.local_entries;
    local_table = v.local_table;
    global_table = v.global_table;
    choice_table = v.choice_table;
    bounded = resolve_call_return-IsBounded ctx res s.ras v.bounded;
  })
]
