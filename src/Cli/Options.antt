-- ===== src/Cli/Options.antt =====
-- The argument loop of main in src/main.cpp.
pub mod Params
use risc_e.Base.{
  ℕ, suc, ◌+◌, ◌-◌, Bool, true, false, not, Option, none, some, List, [], ◌∷◌, ◌++◌, take, drop,
  ltb, ◌==◌, ◌&&◌, ◌||◌, if◌then◌else◌,
}
use risc_e.Base.Word.{u32}
use risc_e.Base.Text.{Text, text, text_eq}
use risc_e.Pipeline.{PipelineModel}
use risc_e.Component.Values.{Result, ok, error, parse_parameter_value}
use risc_e.Component.Designs.{Component, type}
use risc_e.Component.Registry.{unregistered, component_names, is_empty}
use risc_e.Cli.Overrides.{ParamOverride, build}

-- The local variables of main that the loop sets.
pub record Options : Type 0 where
  pub elf_path : Text
  pub predictor_name : Text
  pub icache_name : Text
  pub dcache_name : Text
  pub overrides : List ParamOverride
  pub pipeline : PipelineModel
  pub comparison_mode : Bool
  pub saw_predictor : Bool
  pub print_report : Bool
  pub verbose : Bool
  pub disasm : Bool
  pub comparison_type : Text
  pub comparison_only : Text
  pub json_path : Text

abbrev pub defaults : Options
defaults = record {
  elf_path = text "../files/output/sample.elf";
  predictor_name = text "two-bit";
  icache_name = text "icache-fa";
  dcache_name = text "l1-l2";
  overrides = [];
  pipeline = record { stages = 5; stall_penalty = 0 };
  comparison_mode = false;
  saw_predictor = false;
  print_report = false;
  verbose = false;
  disasm = false;
  comparison_type = [];
  comparison_only = [];
  json_path = [];
}

-- The options that take the next argument.
pub data ValueOption : Type 0 where
  predictor icache dcache comparison pipeline_stages stall_penalty param json : ValueOption

-- What is reported before the loop returns 1.
pub data UsageError : Type 0 where
  missing_value : ValueOption → UsageError
  unknown_comparison : Text → UsageError
  bad_stages : Text → UsageError
  bad_penalty : Text → UsageError
  bad_param : Text → UsageError

-- The loop ends at the last argument, at an error, or at --list with its detail.
pub data Parsed : Type 0 where
  parsed : Options → Parsed
  usage : UsageError → Parsed
  listing : Text → Parsed

pub data Kind : Type 0 where
  value_of : ValueOption → Kind
  print_flag verbose_flag disasm_flag list_flag path : Kind

unfoldable pub kind : Text → Kind
kind arg =
    if text_eq arg (text "--predictor")
    then value_of predictor
    else if text_eq arg (text "--icache")
    then value_of icache
    else if text_eq arg (text "--dcache")
    then value_of dcache
    else if text_eq arg (text "--comparison")
    then value_of comparison
    else if text_eq arg (text "--pipeline-stages")
    then value_of pipeline_stages
    else if text_eq arg (text "--stall-penalty")
    then value_of stall_penalty
    else if text_eq arg (text "--param")
    then value_of param
    else if text_eq arg (text "--print")
    then print_flag
    else if text_eq arg (text "--verbose")
    then verbose_flag
    else if text_eq arg (text "--disasm")
    then disasm_flag
    else if text_eq arg (text "--json")
    then value_of json
    else if text_eq arg (text "--list")
    then list_flag
    else path

-- `spec.find(c)`.
unfoldable pub find : ℕ → Text → Option ℕ
find c [] = none
find c (d ∷ ds) =
    if d == c then some 0 else elim (find c ds) [ none ↦ none | some i ↦ some (suc i) ]

-- "<component>.<parameter>=<value>", cut at the first '.' and the first '='.
unfoldable pub split_param : Text → Option ParamOverride
unfolding find
split_param spec = elim (find b'=' spec) [
  | none ↦ none
  | some eq ↦ elim (find b'.' spec) [
    | none ↦ none
    | some dot ↦
        if ltb eq dot
        then none
        else some (record {
          component = take dot spec;
          name = take (eq - dot - 1) (drop (dot + 1) spec);
          value = drop (eq + 1) spec;
        })
  ]
]

-- The branch of --comparison.
unfoldable pub set_comparison : Options → Text → Parsed
set_comparison o name = elim (build name) [
  | some c ↦
      parsed (record o { comparison_mode = true; comparison_only = name; comparison_type = type c })
  | none ↦ elim ((component_names unregistered name).1) [
    | [] ↦ usage (unknown_comparison name)
    | n ∷ ns ↦ parsed (record o { comparison_mode = true; comparison_type = name })
  ]
]

-- The branches of the options with a value. `static_cast<int>` keeps the low 32 bits.
unfoldable pub set_value : Options → ValueOption → Text → Parsed
unfolding split_param set_comparison
set_value o predictor v = parsed (record o { predictor_name = v; saw_predictor = true })
set_value o icache v = parsed (record o { icache_name = v })
set_value o dcache v = parsed (record o { dcache_name = v })
set_value o comparison v = set_comparison o v
set_value o pipeline_stages v = elim (parse_parameter_value v) [
  | error e ↦ usage (bad_stages v)
  | ok stages ↦
      if ltb stages 1
      then usage (bad_stages v)
      else parsed (record o { pipeline = record (o.pipeline) { stages = u32 stages } })
]
set_value o stall_penalty v = elim (parse_parameter_value v) [
  | error e ↦ usage (bad_penalty v)
  | ok penalty ↦
      parsed (record o { pipeline = record (o.pipeline) { stall_penalty = u32 penalty } })
]
set_value o param v = elim (split_param v) [
  | none ↦ usage (bad_param v)
  | some p ↦ parsed (record o { overrides = o.overrides ++ (p ∷ []) })
]
set_value o json v = parsed (record o { json_path = v })

-- `argv[i + 1][0] != '-'`.
abbrev pub is_detail : Text → Bool
is_detail [] = true
is_detail (c ∷ cs) = not (c == b'-')

-- The detail of --list.
abbrev pub detail_of : List Text → Text
detail_of [] = []
detail_of (v ∷ rest) = if is_detail v then v else []

-- The loop; the second argument is the option whose value comes next.
unfoldable pub parse_loop : Options → Option ValueOption → List Text → Parsed
unfolding kind set_value
parse_loop o none [] = parsed o
parse_loop o (some option) [] = usage (missing_value option)
parse_loop o (some option) (v ∷ rest) = elim (set_value o option v) [
  | parsed o' ↦ parse_loop o' none rest
  | usage e ↦ usage e
  | listing detail ↦ listing detail
]
parse_loop o none (arg ∷ rest) = elim (kind arg) [
  | value_of option ↦ parse_loop o (some option) rest
  | print_flag ↦ parse_loop (record o { print_report = true }) none rest
  | verbose_flag ↦ parse_loop (record o { verbose = true }) none rest
  | disasm_flag ↦ parse_loop (record o { disasm = true }) none rest
  | list_flag ↦ listing (detail_of rest)
  | path ↦ parse_loop (record o { elf_path = arg }) none rest
]

unfoldable pub parse_args : List Text → Parsed
unfolding parse_loop
parse_args args = parse_loop defaults none args
