-- ===== src/Cli/Options/Params.antt =====
-- The --param arguments of main in src/main.cpp: every override can be written as one.
use risc_e.Base.{
  ℕ, suc, ◌+◌, ◌-◌, ◌≡◌, ◌≢◌, refl, sym, ap, ◌∙◌, arith, false, none, some, List, [], ◌∷◌, ◌++◌,
  take, drop, length, length-append, All, All-append, ltb,
}
use mathlib.Core.List.{append-nil, append_assoc}
use risc_e.Base.Text.{Text, text, text_eq}
use risc_e.Cli.Overrides.{ParamOverride}
use risc_e.Cli.Options.{
  Options, defaults, kind, find, split_param, set_value, parse_loop, parse_args,
}

abbrev pub Lacks : ℕ → Text → Type 0
Lacks c = All (λ d. d ≢ c)

-- The component's name has neither separator and the parameter's has no equals sign.
pub record IsWritable (o : ParamOverride) : Type 0 where
  pub no_dot : Lacks b'.' o.component
  pub no_equals : Lacks b'=' o.component
  pub plain_name : Lacks b'=' o.name

abbrev pub spec_of : ParamOverride → Text
spec_of o = o.component ++ (b'.' ∷ (o.name ++ (b'=' ∷ o.value)))

find-append : (c : ℕ) (s t : Text) → Lacks c s → find c (s ++ (c ∷ t)) ≡ some (length s)
unfolding find
find-append c [] t h = ground arith
find-append c (d ∷ ds) t h = ground (arith, find-append c ds t h.1)

take-append : (s t : Text) → take (length s) (s ++ t) ≡ s
take-append [] t = refl
take-append (c ∷ cs) t = ap (λ s. c ∷ s) (take-append cs t)

drop-suc : (s t : Text) (c : ℕ) → drop (suc (length s)) (s ++ (c ∷ t)) ≡ t
drop-suc [] t c = refl
drop-suc (d ∷ ds) t c = drop-suc ds t c

drop-append : (s t : Text) (c : ℕ) → drop (length s + 1) (s ++ (c ∷ t)) ≡ t
drop-append s t c =
    let next : length s + 1 ≡ suc (length s) = omega arith in rw next (drop-suc s t c)

-- The two separators of a written override.
before : ParamOverride → Text
before o = o.component ++ (b'.' ∷ o.name)

spec_of-before : (o : ParamOverride) → spec_of o ≡ before o ++ (b'=' ∷ o.value)
unfolding before
spec_of-before o = sym (append_assoc o.component (b'.' ∷ o.name) (b'=' ∷ o.value))

find_equals : (o : ParamOverride) → IsWritable o → find b'=' (spec_of o) ≡ some (length (before o))
unfolding before
find_equals o w = rw (spec_of-before o) (
    find-append b'=' (before o) o.value
      (All-append (λ d. d ≢ b'=') o.component (b'.' ∷ o.name) w.no_equals (dot, w.plain_name)))
  where
    dot : ◌≢◌ {A = ℕ} b'.' b'='
    dot = omega arith

split_param-find :
    (spec : Text) (eq dot : ℕ)
    → find b'=' spec ≡ some eq
    → find b'.' spec ≡ some dot
    → ltb eq dot ≡ false
    → split_param spec
      ≡ some (record {
        component = take dot spec;
        name = take (eq - dot - 1) (drop (dot + 1) spec);
        value = drop (eq + 1) spec;
      })
unfolding split_param
split_param-find spec eq dot e d n = ground arith

-- An override comes back from its argument.
split_param-spec_of : (o : ParamOverride) → IsWritable o → split_param (spec_of o) ≡ some o
unfolding before
split_param-spec_of o w =
    split_param-find (spec_of o) (length (before o)) (length o.component) (find_equals o w)
      (find-append b'.' o.component (o.name ++ (b'=' ∷ o.value)) w.no_dot) (ground (arith, lengths))
    ∙ ap some (λ i. record { component = component i; name = name i; value = value i })
  where
    lengths : length (before o) ≡ length o.component + suc (length o.name)
    lengths = length-append o.component (b'.' ∷ o.name)

    component : take (length o.component) (spec_of o) ≡ o.component
    component = take-append o.component (b'.' ∷ (o.name ++ (b'=' ∷ o.value)))

    name :
        take
          (length (before o) - length o.component - 1)
          (drop (length o.component + 1) (spec_of o))
        ≡ o.name
    name =
        let rest : length (before o) - length o.component - 1 ≡ length o.name =
          omega (arith, lengths) in
        rw (rest, drop-append o.component (o.name ++ (b'=' ∷ o.value)) b'.')
          (take-append o.name (b'=' ∷ o.value))

    value : drop (length (before o) + 1) (spec_of o) ≡ o.value
    value = rw (spec_of-before o) (drop-append (before o) o.value b'=')

abbrev pub params_of : List ParamOverride → List Text → List Text
params_of [] rest = rest
params_of (o ∷ os) rest = text "--param" ∷ spec_of o ∷ params_of os rest

parse_loop-param :
    (o : Options) (p : ParamOverride) (rest : List Text)
    → IsWritable p
    → parse_loop o none (text "--param" ∷ spec_of p ∷ rest)
      ≡ parse_loop (record o { overrides = o.overrides ++ (p ∷ []) }) none rest
unfolding parse_loop set_value kind text_eq
parse_loop-param o p rest w = rw (split_param-spec_of p w, set_value, parse_loop)

parse_loop-params_of :
    (o : Options) (ps : List ParamOverride) (rest : List Text)
    → All IsWritable ps
    → parse_loop o none (params_of ps rest)
      ≡ parse_loop (record o { overrides = o.overrides ++ ps }) none rest
parse_loop-params_of o [] rest h =
    ap (λ os. parse_loop (record o { overrides = os }) none rest) (sym (append-nil o.overrides))
parse_loop-params_of o (p ∷ ps) rest h =
    parse_loop-param o p (params_of ps rest) h.0
    ∙ (parse_loop-params_of (record o { overrides = o.overrides ++ (p ∷ []) }) ps rest h.1
        ∙ ap (λ os. parse_loop (record o { overrides = os }) none rest)
            (append_assoc o.overrides (p ∷ []) ps))

-- Every list of overrides can be written as --param arguments in front of any others: the loop reads
-- exactly these overrides, in order, and goes on with the rest. The name of a component may hold no
-- dot or equals sign, that of a parameter no equals sign, and a value anything.
pub parse_args-params_of :
    (ps : List ParamOverride) (rest : List Text)
    → All IsWritable ps
    → parse_args (params_of ps rest) ≡ parse_loop (record defaults { overrides = ps }) none rest
unfolding parse_args
parse_args-params_of ps rest h = parse_loop-params_of defaults ps rest h
