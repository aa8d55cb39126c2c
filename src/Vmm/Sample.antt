-- ===== src/Vmm/Sample.antt =====
-- A machine with one empty PML4 behind the first 32MB.
use os_eojin.Base.{
  ℕ, ◌-◌, ◌^◌, ◌≡◌, refl, true, [], arith, if◌then◌else◌, ltb, ◌==◌, ==_iff, Bool-cases, inl, inr,
  sym, subst,
}
use os_eojin.Base.Bits.{all_below, all_below_sound}
use os_eojin.Machine.{Machine, load}
use os_eojin.Pmm.{test_bit}
use os_eojin.Pmm.Alloc.{used, IsReserved}
use os_eojin.Vmm.Word.{word}
use os_eojin.Vmm.Tree.{IsTree}

-- Block 8192 is in use, the seven behind it are free.
abbrev pub machine : Machine
machine = record {
  mem = λ a. 0;
  bitmap = λ i. if ltb i 256 then 2 ^ 32 - 1 else 1;
  total_blocks = 8200;
  bitmap_size = 1025;
  console = [];
}

abbrev pub level : ℕ → ℕ
level p = if p == 8192 then 4 else 0

machine_table : all_below 8192 (used machine) ≡ true
unfolding used test_bit
machine_table = refl

pub machine-IsReserved : IsReserved machine
machine-IsReserved j h = all_below_sound 8192 (used machine) j machine_table h

no_entry : (p j : ℕ) → word p j machine.mem ≡ 0
unfolding load
no_entry p j = refl

pub machine-IsTree : IsTree level machine
unfolding used test_bit
machine-IsTree = record {
  reserved = machine-IsReserved;
  few = omega arith;
  taken = λ p some'. elim (Bool-cases (p == 8192)) [
    | inl here ↦ subst (λ i. test_bit machine.bitmap i ≡ true) (sym ((==_iff p 8192).0 here)) refl
    | inr other ↦ absurd (ground (arith, other))
  ];
  bound = λ p. ground arith;
  names = λ p j two less there. absurd (ground (arith, no_entry p j));
  single = λ p j q i two two' less less' there there' same. absurd (ground (arith, no_entry p j));
}
