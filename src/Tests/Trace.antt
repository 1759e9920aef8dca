-- ===== src/Tests/Trace.antt =====
-- Inputs for the trace calls.
use trace_fs.Base.{[], ◌∷◌, ◌+◌, ◌%◌, ◌^◌, ◌<◌, arith, ◌≡◌}
use trace_fs.Base.Int.{negsuc}
use trace_fs.Ctrace.Call.{u8, s32, u64, marker, ownership, emit_all, meanings}
use trace_fs.Ctrace.Command.{AreCommands, emit_all-AreCommands}
use trace_fs.Ctrace.Protocol.{receive, idle}
use trace_fs.Ctrace.Stream.{receive-emit_all}
use trace_fs.Ctrace.Test.{ctrace_test_main, expected}
use trace_fs.Ctrace.Test.Phases.{expected_plain, ctrace_test_main-phases}
use trace_fs.Ctrace.Plain.{plain}

receive-emit_all_example :
    let cs = u8 200 ∷ ownership 3 ∷ s32 (negsuc 6) ∷ u64 (2 ^ 63) ∷ marker 1 ∷ [] in
    receive idle (emit_all cs) ≡ meanings cs
receive-emit_all_example =
    receive-emit_all (u8 200 ∷ ownership 3 ∷ s32 (negsuc 6) ∷ u64 (2 ^ 63) ∷ marker 1 ∷ [])
      (omega arith, (omega arith, (omega arith, (omega arith, (omega arith, tt)))))

ctrace_test_main-phases_example :
    let (writes, counter') = ctrace_test_main 14 0x28 0x1000 in
    (receive idle writes ≡ expected (14 % 8) 0x28 0x1000)
    × (plain writes ≡ expected_plain (14 % 8))
    × (counter' < 2 ^ 32)
    × (counter' % 8 ≡ (14 % 8 + 1) % 8)
ctrace_test_main-phases_example = ctrace_test_main-phases 14 0x28 0x1000 (omega arith)

emit_all-AreCommands_example :
    AreCommands (emit_all (u8 200 ∷ ownership 3 ∷ s32 (negsuc 6) ∷ u64 (2 ^ 63) ∷ marker 1 ∷ []))
emit_all-AreCommands_example =
    emit_all-AreCommands (u8 200 ∷ ownership 3 ∷ s32 (negsuc 6) ∷ u64 (2 ^ 63) ∷ marker 1 ∷ [])
