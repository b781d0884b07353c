-- ===== src/Predictor/Tests.antt =====
-- Witnesses for the predictors' theorems.
use risc_e.Base.{◌≡◌, refl, arith, true, not, some, List, [], ◌∷◌}
use risc_e.Decoder.Opcodes
use risc_e.Predictor.Stack.{ReturnAddressStack, push, pop, pop-push}
use risc_e.Predictor.Context.{BranchContext, Resolution, is_call, is_return}
use risc_e.Predictor.Counter.{counter_is_taken, train, train_n, counter_hysteresis}
use risc_e.Predictor.Nesting.{Balanced, nil, nest, Event, run_calls, run_calls-Balanced}
use risc_e.Predictor.Designs.TwoBit
use risc_e.Predictor.Designs.TwoBit.{TwoBit}
use risc_e.Predictor.Designs.Tournament.{Tournament}
use risc_e.Predictor.Designs.Validity.{IsTwoBit, IsTournament}
use risc_e.Predictor.Stats.{fresh, replay_trace}
use risc_e.Predictor.Stats.Replay.{Transfer, SameScore, run_transfers, replay_trace-run_transfers}

abbrev stack : ReturnAddressStack
stack = record { depth = 2; entries = 8 ∷ [] }

pop-push_example : pop (push stack 16) ≡ (stack, some 16)
pop-push_example = pop-push stack 16 (omega arith)

counter_hysteresis_example :
    (counter_is_taken (train_n 2 true 0) ≡ true)
    × (counter_is_taken (train (not true) (train_n 3 true 0)) ≡ true)
counter_hysteresis_example = counter_hysteresis true 0 (omega arith)

-- `jal ra, 0x100` at 0x1000, and the `ret` at 0x1100.
abbrev call : BranchContext
call = record {
  pc = 0x1000;
  raw = 0x100000ef;
  opcode = Opcodes.jal;
  funct3 = 0;
  rd = 1;
  rs1 = 0;
  rs2 = 0;
  imm = 0x100;
}

abbrev return : BranchContext
return = record {
  pc = 0x1100;
  raw = 0x8067;
  opcode = Opcodes.jalr;
  funct3 = 0;
  rd = 0;
  rs1 = 1;
  rs2 = 0;
  imm = 0;
}

abbrev called : Resolution
called = record { taken = true; next_pc = 0x1100 }

abbrev returned : Resolution
returned = record { taken = true; next_pc = 0x1004 }

abbrev history : List Event
history = (call, called) ∷ (return, returned) ∷ []

history-Balanced : Balanced 1 history
unfolding is_call is_return
history-Balanced = nest call called return returned refl refl refl nil nil

run_calls-Balanced_example : run_calls stack history ≡ (stack, 0)
run_calls-Balanced_example = run_calls-Balanced stack history-Balanced (omega arith)

-- `beq` at 0x1008.
abbrev branch : BranchContext
branch = record {
  pc = 0x1008;
  raw = 0x208463;
  opcode = Opcodes.branch;
  funct3 = 0;
  rd = 8;
  rs1 = 1;
  rs2 = 2;
  imm = 8;
}

abbrev was_taken : Resolution
was_taken = record { taken = true; next_pc = 0x1010 }

abbrev two_bit : TwoBit
two_bit = record { table_size = 2; counters = 0 ∷ 2 ∷ []; ras = stack }

two_bit-IsTwoBit : IsTwoBit two_bit
two_bit-IsTwoBit = record {
  positive = omega arith;
  table = (refl, (omega arith, (omega arith, tt)));
  bounded = omega arith;
}

abbrev tournament : Tournament
tournament = record {
  history_bits = 1;
  global_history = 1;
  history_mask = 1;
  local_history = 0 ∷ 1 ∷ [];
  local_pht = 2 ∷ 0 ∷ [];
  global_pht = 1 ∷ 3 ∷ [];
  choice_pht = 2 ∷ 1 ∷ [];
  ras = stack;
}

tournament-IsTournament : IsTournament tournament
tournament-IsTournament = record {
  bits = (omega arith, omega arith);
  mask = refl;
  history = omega arith;
  local_size = refl;
  local_entries = (omega arith, (omega arith, tt));
  local_table = (refl, (omega arith, (omega arith, tt)));
  global_table = (refl, (omega arith, (omega arith, tt)));
  choice_table = (refl, (omega arith, (omega arith, tt)));
  bounded = omega arith;
}

abbrev transfers : List Transfer
transfers =
    record { raw = 0x208463; pc = 0x1008; taken = true; next_pc = 0x1010; inst_count = 3 } ∷ []

replay_trace-run_transfers_example :
    let live =
      (run_transfers TwoBit.predictor
        (record fresh { trace_enabled = true })
        (some two_bit)
        transfers).0 in
    SameScore live (replay_trace TwoBit.predictor live.trace two_bit)
replay_trace-run_transfers_example =
    replay_trace-run_transfers TwoBit.predictor two_bit transfers (omega arith)
