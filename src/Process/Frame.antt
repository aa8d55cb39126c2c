-- ===== src/Process/Frame.antt =====
-- The frame on the stack of a new process, against the layout that the interrupt exit pops
-- (`registers_t` of src/kernel/isr.c).
use os_eojin.Base.{
  ℕ, zero, suc, ◌+◌, ◌-◌, ◌*◌, ◌^◌, ◌≤◌, ◌<◌, ◌≡◌, refl, arith, inr, List, [], ◌∷◌, ◌++◌, length,
  replicate, ◌⊎◌, ◌∙◌, ap, subst,
}
use os_eojin.Machine.{read64, write64}
use os_eojin.Machine.Bytes.{load-store_self, store_outside, load_same}
use os_eojin.Process.{Stack, push, push_zeros, push_frame}

-- A 64-bit word is unchanged by a write that does not touch its bytes.
read64-write64_ne :
    (a b v : ℕ) (mem : ℕ → ℕ)
    → (a + 8 ≤ b) ⊎ (b + 8 ≤ a)
    → read64 a (write64 b v mem) ≡ read64 a mem
read64-write64_ne a b v mem h =
    load_same 8 a (write64 b v mem) mem (λ c p q. store_outside 8 b v c mem (omega arith))

-- The words at address `a` and above, lowest address first.
abbrev pub Holds : ℕ → (ℕ → ℕ) → List ℕ → Type 0
Holds a mem [] = Unit
Holds a mem (v ∷ vs) = (read64 a mem ≡ v) × Holds (a + 8) mem vs

Holds-write64_below :
    (a b v : ℕ) (mem : ℕ → ℕ) (vs : List ℕ)
    → b + 8 ≤ a
    → Holds a mem vs
    → Holds a (write64 b v mem) vs
Holds-write64_below a b v mem [] h held = tt
Holds-write64_below a b v mem (w ∷ vs) h held = (
  read64-write64_ne a b v mem (inr h) ∙ held.0,
  Holds-write64_below (a + 8) b v mem vs (omega arith) held.1,
)

-- A stack of words below `top`, and the memory that it was begun on.
record IsStack (top : ℕ) (mem : ℕ → ℕ) (s : Stack) (vs : List ℕ) : Type 0 where
  depth : s.0 + 8 * length vs ≡ top
  holds : Holds s.0 s.1 vs
  outside : (b : ℕ) → (b < s.0) ⊎ (top ≤ b) → s.1 b ≡ mem b

push-IsStack :
    {top : ℕ} {mem : ℕ → ℕ} {s : Stack} {vs : List ℕ} (v : ℕ)
    → v < 2 ^ 64
    → 8 ≤ s.0
    → IsStack top mem s vs
    → IsStack top mem (push v s) (v ∷ vs)
unfolding push
push-IsStack {top} {s = (rsp, m)} {vs} v small room st =
    let back : rsp - 8 + 8 ≡ rsp = omega arith in
    record {
      depth = omega (arith, st.depth);
      holds = (
        load-store_self 8 (rsp - 8) v m ∙ omega arith,
        rw back (Holds-write64_below rsp (rsp - 8) v m vs (omega arith) st.holds),
      );
      outside = λ b h.
          let h' : (b < rsp - 8) ⊎ (top ≤ b) = h in
          store_outside 8 (rsp - 8) v b m (omega arith) ∙ st.outside b (omega arith);
    }

replicate-append : (n v : ℕ) (vs : List ℕ) → replicate n v ++ (v ∷ vs) ≡ v ∷ (replicate n v ++ vs)
replicate-append zero v vs = refl
replicate-append (suc n) v vs = ap (λ t. v ∷ t) (replicate-append n v vs)

push_zeros-IsStack :
    (n : ℕ) {top : ℕ} {mem : ℕ → ℕ} {s : Stack} {vs : List ℕ}
    → 8 * n ≤ s.0
    → IsStack top mem s vs
    → IsStack top mem (push_zeros n s) (replicate n 0 ++ vs)
unfolding push_zeros push
push_zeros-IsStack zero room st = st
push_zeros-IsStack (suc n) {top} {mem} {s} {vs} room st =
    subst (IsStack top mem (push_zeros n (push 0 s))) (replicate-append n 0 vs)
      (push_zeros-IsStack n (omega arith) (push-IsStack 0 (omega arith) (omega arith) st))

-- The 23 words of a first frame, lowest address first: 16 registers, the interrupt number and the
-- error code, all 0, then RIP, CS, RFLAGS with interrupts enabled, RSP and SS.
abbrev pub frame_words : (ss rsp cs entry : ℕ) → List ℕ
frame_words ss rsp cs entry = replicate 18 0 ++ (entry ∷ cs ∷ 0x202 ∷ rsp ∷ ss ∷ [])

-- The frame takes the 184 bytes under the top of the stack, holds its words in the order in which
-- they are popped, and writes nowhere else.
pub push_frame_lem :
    (ss rsp cs entry top : ℕ) (mem : ℕ → ℕ)
    → ss < 2 ^ 64
    → rsp < 2 ^ 64
    → cs < 2 ^ 64
    → entry < 2 ^ 64
    → 184 ≤ top
    → let (sp, mem') = push_frame ss rsp cs entry (top, mem) in
      (sp + 184 ≡ top)
      × Holds sp mem' (frame_words ss rsp cs entry)
      × ((b : ℕ) → (b < sp) ⊎ (top ≤ b) → mem' b ≡ mem b)
unfolding push_frame push
push_frame_lem ss rsp cs entry top mem hss hrsp hcs hentry room =
    let empty : IsStack top mem (top, mem) [] = record {
      depth = omega arith;
      holds = tt;
      outside = λ b h. refl;
    } in
    let s1 = push-IsStack ss hss (omega arith) empty in
    let s2 = push-IsStack rsp hrsp (omega arith) s1 in
    let s3 = push-IsStack 0x202 (omega arith) (omega arith) s2 in
    let s4 = push-IsStack cs hcs (omega arith) s3 in
    let s5 = push-IsStack entry hentry (omega arith) s4 in
    let s6 = push-IsStack 0 (omega arith) (omega arith) s5 in
    let s7 = push-IsStack 0 (omega arith) (omega arith) s6 in
    let done = push_zeros-IsStack 16 (omega arith) s7 in
    (omega (arith, done.depth), done.holds, done.outside)
