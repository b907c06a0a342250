-- ===== src/Profiler/Balance.antt =====
-- What the counters of src/utils/Profiler.cpp have to do with each other.
use occam.Base.{
  ℕ, ◌+◌, ◌^◌, ◌%◌, Bool, true, false, ◌&&◌, ◌||◌, ◌==◌, ltb, Option, none, some, ◌≡◌, refl, arith,
  Name, Bool-cases, if◌then◌else◌,
}
use occam.Profiler.{
  Counter, total_insts, total_direct_calls, total_indirect_calls, total_asm_calls, total_unk_calls,
  total_mem_inst, mem_unknown, safe_mem_access, total_allocations, counter_code, Profile, tick,
}
use occam.Profiler.Visits.{
  Call, Opcode, SecondOperand, constant_int, constant_fp, other_operand, Instruction, call, binary,
  transfer, mem_set_inst, alloca, load_inst, store_inst, get_element_ptr, instruction,
  get_called_function, count_callee, visit_call_site, is_division, is_shl, is_int_division,
  count_division, count_shift, slt, visit_binary_operator,
}

-- The numbers that the counters stand for, from the instructions alone: all instructions, the calls
-- that are no memory intrinsic, and the accesses of loads, stores and memory intrinsics (two for a
-- transfer); other instructions, atomic ones too, count as no access.
pub record Totals : Type 0 where
  pub insts : ℕ
  pub plain_calls : ℕ
  pub plain_accesses : ℕ

unfoldable pub totals_of : Instruction → Totals
totals_of (call c) = record { insts = 1; plain_calls = 1; plain_accesses = 0 }
totals_of (binary op d) = record { insts = 1; plain_calls = 0; plain_accesses = 0 }
totals_of (transfer k s d n) = record { insts = 1; plain_calls = 0; plain_accesses = 2 }
totals_of (mem_set_inst d n) = record { insts = 1; plain_calls = 0; plain_accesses = 1 }
totals_of alloca = record { insts = 1; plain_calls = 0; plain_accesses = 0 }
totals_of (load_inst p) = record { insts = 1; plain_calls = 0; plain_accesses = 1 }
totals_of (store_inst p) = record { insts = 1; plain_calls = 0; plain_accesses = 1 }
totals_of (get_element_ptr b) = record { insts = 1; plain_calls = 0; plain_accesses = 0 }
totals_of instruction = record { insts = 1; plain_calls = 0; plain_accesses = 0 }

abbrev pub add_totals : Totals → Totals → Totals
add_totals a b = record {
  insts = a.insts + b.insts;
  plain_calls = a.plain_calls + b.plain_calls;
  plain_accesses = a.plain_accesses + b.plain_accesses;
}

abbrev pub IsBalanced : Totals → Profile → Type 0
IsBalanced n t =
    (t.values total_insts ≡ n.insts % 4294967296)
    × ((t.values total_direct_calls
            + t.values total_indirect_calls
            + t.values total_asm_calls
            + t.values total_unk_calls)
          % 4294967296
        ≡ n.plain_calls % 4294967296)
    × (t.values total_mem_inst ≡ n.plain_accesses % 4294967296)
    × ((t.values mem_unknown + t.values safe_mem_access) % 4294967296
        ≡ n.plain_accesses % 4294967296)

count_callee-IsBalanced :
    (f : Option (Name × Bool)) (c : Call) (t : Profile) (n : Totals)
    → IsBalanced n t
    → IsBalanced
        (record {
          insts = n.insts;
          plain_calls = n.plain_calls + 1;
          plain_accesses = n.plain_accesses;
        })
        (count_callee f c t)
unfolding count_callee tick counter_code
count_callee-IsBalanced (some (m, true)) c t n (a, b, d, e) = (a, omega arith, d, e)
count_callee-IsBalanced (some (m, false)) c t n (a, b, d, e) = (a, omega arith, d, e)
count_callee-IsBalanced none c t n (a, b, d, e) =
    ground (arith, Bool-cases c.is_indirect_call, Bool-cases c.is_inline_asm)

-- The counters that the balance does not look at.
unfoldable pub is_other : Counter → Bool
unfolding counter_code
is_other c =
    ltb (counter_code c) 5
    || ltb 21 (counter_code c)
    || (ltb 10 (counter_code c) && ltb (counter_code c) 19)

pub tick-IsBalanced :
    (c : Counter) (t : Profile) (n : Totals)
    → is_other c ≡ true
    → IsBalanced n t
    → IsBalanced n (tick c t)
unfolding is_other tick counter_code
tick-IsBalanced c t n other (a, b, d, e) = ground arith

count_division-is_other : (op : Opcode) (d : SecondOperand) → is_other (count_division op d) ≡ true
unfolding is_other counter_code count_division
count_division-is_other op (constant_int n w) = ground (arith, Bool-cases (n == 0))
count_division-is_other op (constant_fp is_zero) = ground (arith, Bool-cases is_zero)
count_division-is_other op other_operand = ground (arith, Bool-cases (is_int_division op))

count_shift-is_other : (d : SecondOperand) → is_other (count_shift d) ≡ true
unfolding is_other counter_code count_shift
count_shift-is_other (constant_int n w) = ground (arith, Bool-cases (slt w n (w % 2 ^ w)))
count_shift-is_other (constant_fp is_zero) = refl
count_shift-is_other other_operand = refl

pub inst-IsBalanced :
    (t : Profile) (n : Totals)
    → IsBalanced n t
    → IsBalanced
        (record {
          insts = n.insts + 1;
          plain_calls = n.plain_calls;
          plain_accesses = n.plain_accesses;
        })
        (tick total_insts t)
unfolding tick counter_code
inst-IsBalanced t n (a, b, d, e) = (omega arith, b, d, e)

-- The same totals, written otherwise.
pub same-IsBalanced :
    (n m : Totals) (t : Profile)
    → n.insts ≡ m.insts
    → n.plain_calls ≡ m.plain_calls
    → n.plain_accesses ≡ m.plain_accesses
    → IsBalanced n t
    → IsBalanced m t
same-IsBalanced n m t i c x (a, b, d, e) = (omega arith, omega arith, omega arith, omega arith)

pub if_tick-IsBalanced :
    (b : Bool) (c : Counter) (t : Profile) (n : Totals)
    → is_other c ≡ true
    → IsBalanced n t
    → IsBalanced n (if b then tick c t else t)
if_tick-IsBalanced true c t n other h = tick-IsBalanced c t n other h
if_tick-IsBalanced false c t n other h = h

pub visit_call_site-IsBalanced :
    (c : Call) (t : Profile) (n : Totals)
    → IsBalanced n t
    → IsBalanced (add_totals n (totals_of (call c))) (visit_call_site c t)
unfolding visit_call_site totals_of is_other counter_code
visit_call_site-IsBalanced c t n h =
    let counted =
      count_callee-IsBalanced (get_called_function c.called) c (tick total_insts t)
        (record {
          insts = n.insts + 1;
          plain_calls = n.plain_calls;
          plain_accesses = n.plain_accesses;
        })
        (inst-IsBalanced t n h) in
    same-IsBalanced _ _ (visit_call_site c t) (omega arith) (omega arith) (omega arith) (
      if_tick-IsBalanced c.is_allocation_fn total_allocations
        (count_callee (get_called_function c.called) c (tick total_insts t)) _ refl counted)

binary_ticks-IsBalanced :
    (op : Opcode) (d : SecondOperand) (division shift : Bool) (t : Profile) (n : Totals)
    → IsBalanced n t
    → IsBalanced n (
        if division
        then tick (count_division op d) t
        else if shift
        then tick (count_shift d) t
        else t)
binary_ticks-IsBalanced op d true shift t n h =
    tick-IsBalanced _ _ _ (count_division-is_other op d) h
binary_ticks-IsBalanced op d false true t n h = tick-IsBalanced _ _ _ (count_shift-is_other d) h
binary_ticks-IsBalanced op d false false t n h = h

pub visit_binary_operator-IsBalanced :
    (op : Opcode) (d : SecondOperand) (t : Profile) (n : Totals)
    → IsBalanced n t
    → IsBalanced (add_totals n (totals_of (binary op d))) (visit_binary_operator op d t)
unfolding visit_binary_operator totals_of
visit_binary_operator-IsBalanced op d t n h =
    same-IsBalanced _ _ (visit_binary_operator op d t) (omega arith) (omega arith) (omega arith) (
      binary_ticks-IsBalanced op d (is_division op) (is_shl op) (tick total_insts t) _
        (inst-IsBalanced t n h))

-- An access that is counted as safe or unknown, behind its count.
pub access-IsBalanced :
    (safe : Bool) (t : Profile) (n : Totals)
    → IsBalanced n t
    → IsBalanced
        (record {
          insts = n.insts;
          plain_calls = n.plain_calls;
          plain_accesses = n.plain_accesses + 1;
        })
        (if safe
          then tick safe_mem_access (tick total_mem_inst t)
          else tick mem_unknown (tick total_mem_inst t))
unfolding tick counter_code
access-IsBalanced true t n (a, b, d, e) = (a, b, omega arith, omega arith)
access-IsBalanced false t n (a, b, d, e) = (a, b, omega arith, omega arith)
