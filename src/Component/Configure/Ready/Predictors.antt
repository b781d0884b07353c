-- ===== src/Component/Configure/Ready/Predictors.antt =====
-- The states that set_parameter of src/component/predictor/implementations/ produces.
use Prim.Native.Nat.{bit_and}
use native.Mathlib.Nat.{one-le-pow}
use risc_e.Base.{
  ℕ, ◌-◌, ◌^◌, ◌<◌, ◌≡◌, refl, arith, length-replicate, not, All-replicate, ltb, ◌==◌, ◌||◌,
  if◌then◌else◌, if-cases,
}
use risc_e.Base.Text.{Text, text, text_eq}
use risc_e.Predictor.Stack.{ReturnAddressStack, IsBounded, max_depth, resize-IsBounded}
use risc_e.Predictor.Designs.TwoBit
use risc_e.Predictor.Designs.TwoBit.{TwoBit}
use risc_e.Predictor.Designs.Gshare
use risc_e.Predictor.Designs.Gshare.{Gshare}
use risc_e.Predictor.Designs.Tournament
use risc_e.Predictor.Designs.Tournament.{Tournament}
use risc_e.Predictor.Designs.Validity.{IsTwoBit}
use risc_e.Component.Values.{
  Result, ok, error, ◌>>=◌, or_throw, unknown_parameter, parse_parameter_value,
}
use risc_e.Component.Designs.{gshare, tournament}
use risc_e.Component.Configure.Predictors.{
  set_ras_depth_parameter, set_two_bit, set_gshare, set_tournament, set_ras,
}
use risc_e.Predictor.Designs.Validity.{fresh-IsTable}
use risc_e.Component.Configure.Ready.{OnOk, OnOk-bind, IsReady}

pub any_ok : (r : Result ℕ) → OnOk (λ _. Unit {0}) r
any_ok (ok a) = tt
any_ok (error e) = tt

set_ras_depth-IsBounded :
    (value : Text) (s : ReturnAddressStack) → OnOk IsBounded (set_ras_depth_parameter value s)
unfolding set_ras_depth_parameter
set_ras_depth-IsBounded value s =
    OnOk-bind (λ _. Unit {0}) IsBounded (parse_parameter_value value) _
      (any_ok (parse_parameter_value value))
      λ v _. if-cases (OnOk IsBounded) (ltb max_depth v) _ _ (λ _. tt) (λ _. resize-IsBounded s v)

-- A configuration of the history bits with a clear history.
pub configure-gshare :
    (bits : ℕ) (history : ℕ) (stack : ReturnAddressStack) (t : Text)
    → history ≡ 0
    → IsBounded stack
    → OnOk (λ s. IsReady (gshare s)) (or_throw (Gshare.configure bits history stack) t)
unfolding Gshare.configure
configure-gshare bits history stack t clear bounded =
    if-cases (λ o. OnOk (λ s. IsReady (gshare s)) (or_throw o t)) (ltb bits 1 || ltb 16 bits) _ _
      (λ _. tt)
      λ good. (
        record {
          bits = ground arith;
          mask = refl;
          history = rw clear (one-le-pow bits 2 (omega arith));
          table = fresh-IsTable (2 ^ bits);
          bounded = bounded;
        },
        clear,
      )

pub configure-tournament :
    (bits : ℕ) (history : ℕ) (stack : ReturnAddressStack) (t : Text)
    → history ≡ 0
    → IsBounded stack
    → OnOk (λ s. IsReady (tournament s)) (or_throw (Tournament.configure bits history stack) t)
unfolding Tournament.configure
configure-tournament bits history stack t clear bounded =
    if-cases (λ o. OnOk (λ s. IsReady (tournament s)) (or_throw o t)) (ltb bits 1 || ltb 16 bits) _
      _ (λ _. tt)
      λ good. (
        record {
          bits = ground arith;
          mask = refl;
          history = rw clear (one-le-pow bits 2 (omega arith));
          local_size = length-replicate (2 ^ bits) 0;
          local_entries =
              All-replicate (λ h. h < 2 ^ bits) (2 ^ bits) 0 (one-le-pow bits 2 (omega arith));
          local_table = fresh-IsTable (2 ^ bits);
          global_table = fresh-IsTable (2 ^ bits);
          choice_table = fresh-IsTable (2 ^ bits);
          bounded = bounded;
        },
        clear,
      )

pub configure-IsTwoBit :
    (size : ℕ) (stack : ReturnAddressStack) (t : Text)
    → IsBounded stack
    → OnOk IsTwoBit (or_throw (TwoBit.configure size stack) t)
unfolding TwoBit.configure
configure-IsTwoBit size stack t bounded =
    if-cases (λ o. OnOk IsTwoBit (or_throw o t)) (size == 0 || not (bit_and size (size - 1) == 0)) _
      _ (λ _. tt)
      λ good. record { positive = ground arith; table = fresh-IsTable size; bounded = bounded }

module _ (name value : Text) where
  -- A parameter that sizes the tables, or the depth of the stack, or an unknown one.
  sized_or_stack {ℓ} :
      {A : Type 0} (P : A → Type ℓ) (sizes : Text) (configured : ℕ → Result A)
      (stack : ReturnAddressStack) (with_stack : ReturnAddressStack → A)
      → ((v : ℕ) → OnOk P (configured v))
      → ((s : ReturnAddressStack) → IsBounded s → P (with_stack s))
      → OnOk P (
          if text_eq name sizes
          then (parse_parameter_value value >>= configured)
          else if text_eq name (text "ras-depth")
          then (set_ras_depth_parameter value stack >>= λ s. ok (with_stack s))
          else error (unknown_parameter name))
  sized_or_stack P sizes configured stack with_stack h k =
      if-cases (OnOk P) (text_eq name sizes) _ _
        (λ _.
          OnOk-bind (λ _. Unit {0}) P (parse_parameter_value value) configured
            (any_ok (parse_parameter_value value)) (λ v _. h v))
        λ _.
          if-cases (OnOk P) (text_eq name (text "ras-depth")) _ _
            (λ _.
              OnOk-bind IsBounded P (set_ras_depth_parameter value stack) _
                (set_ras_depth-IsBounded value stack) k)
            (λ _. tt)

  pub two_bit-IsReady : (s : TwoBit) → IsTwoBit s → OnOk IsTwoBit (set_two_bit s name value)
  unfolding set_two_bit
  two_bit-IsReady s v =
      sized_or_stack IsTwoBit _ _ s.ras (λ stack. record s { ras = stack })
        (λ size. configure-IsTwoBit size s.ras _ v.bounded)
        λ stack bounded. record { positive = v.positive; table = v.table; bounded = bounded }

  pub gshare-IsReady :
      (s : Gshare) → IsReady (gshare s) → OnOk (λ s. IsReady (gshare s)) (set_gshare s name value)
  unfolding set_gshare
  gshare-IsReady s (v, clear) =
      sized_or_stack (λ s. IsReady (gshare s)) _ _ s.ras (λ stack. record s { ras = stack })
        (λ bits. configure-gshare bits s.global_history s.ras _ clear v.bounded)
        λ stack bounded. (
          record {
            bits = v.bits;
            mask = v.mask;
            history = v.history;
            table = v.table;
            bounded = bounded;
          },
          clear,
        )

  pub tournament-IsReady :
      (s : Tournament)
      → IsReady (tournament s)
      → OnOk (λ s. IsReady (tournament s)) (set_tournament s name value)
  unfolding set_tournament
  tournament-IsReady s (v, clear) =
      sized_or_stack (λ s. IsReady (tournament s)) _ _ s.ras (λ stack. record s { ras = stack })
        (λ bits. configure-tournament bits s.global_history s.ras _ clear v.bounded)
        λ stack bounded. (
          record {
            bits = v.bits;
            mask = v.mask;
            history = v.history;
            local_size = v.local_size;
            local_entries = v.local_entries;
            local_table = v.local_table;
            global_table = v.global_table;
            choice_table = v.choice_table;
            bounded = bounded;
          },
          clear,
        )

  pub ras-IsReady : (s : ReturnAddressStack) → IsBounded s → OnOk IsBounded (set_ras s name value)
  unfolding set_ras
  ras-IsReady s v =
      if-cases (OnOk IsBounded) (text_eq name (text "ras-depth")) _ _
        (λ _. set_ras_depth-IsBounded value s) (λ _. tt)
