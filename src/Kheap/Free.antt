-- ===== src/Kheap/Free.antt =====
-- `kfree` of src/kernel/kheap.c on a chain of blocks.
use os_eojin.Base.{
  ℕ, zero, suc, ◌+◌, ◌^◌, ◌<◌, ◌≡◌, refl, List, [], ◌∷◌, arith, ==_ne, if◌then◌else◌, ◌&&◌, Option,
  some, length, ◌∙◌, ap, inl, inr, Bool-cases, sym,
}
use os_eojin.Machine.{u64}
use os_eojin.Kheap.{Header, header_size, put, join_free}
use os_eojin.Kheap.Chain.{Block, start, header, NotAt, Chain, Chain-put}

-- Two free blocks as one.
abbrev pub joined : Block → Block → Block
joined b c = record { addr = b.addr; size = b.size + (header_size + c.size); free = b.free }

-- Runs of free blocks joined, from `b` on.
unfoldable pub join : Block → List Block → List Block
join b [] = b ∷ []
join b (c ∷ bs) =
    let one = join (joined b c) bs in
    let two = b ∷ join c bs in if b.free && c.free then one else two

-- All bytes of a list, headers included.
abbrev pub total : List Block → ℕ
total [] = 0
total (b ∷ bs) = header_size + b.size + total bs

pub start-join : (b : Block) (bs : List Block) → start (join b bs) ≡ b.addr
unfolding join
start-join b [] = refl
start-join b (c ∷ bs) = ground (arith, start-join (joined b c) bs)

NotAt-join : (a : ℕ) (b : Block) (bs : List Block) → NotAt a (b ∷ bs) → NotAt a (join b bs)
unfolding join
NotAt-join a b [] out = out
NotAt-join a b (c ∷ bs) out = elim (Bool-cases (b.free && c.free)) [
  | inl both ↦ rw both (NotAt-join a (joined b c) bs (out.0, out.1.1))
  | inr apart ↦ rw apart (out.0, NotAt-join a c bs out.1)
]

-- What the loop of `kfree` returns for the blocks of a chain: their runs of free blocks joined, with
-- no other header written.
pub record Joins (b : Block) (bs : List Block) (at : ℕ → Header) (o : Option (ℕ → Header))
    : Type 0 where
  pub result : ℕ → Header
  pub ends : o ≡ some result
  pub chain : Chain result (join b bs)
  pub same : (a : ℕ) → NotAt a (b ∷ bs) → result a ≡ at a

join_free-last :
    (fuel : ℕ) (at : ℕ → Header) (b : Block)
    → Chain at (b ∷ [])
    → join_free (suc fuel) b.addr at ≡ some at
unfolding join_free
join_free-last fuel at b ch = rw (==_ne b.addr 0 ch.0, ch.1)

-- One round of the loop at two neighbours.
join_free-step :
    (fuel : ℕ) (at : ℕ → Header) (b c : Block) (bs : List Block)
    → Chain at (b ∷ c ∷ bs)
    → join_free (suc fuel) b.addr at ≡ (
        if b.free && c.free
        then join_free fuel b.addr (
            put b.addr
              (record {
                next = start bs;
                size = u64 (b.size + (header_size + c.size));
                is_free = b.free;
              })
              at)
        else join_free fuel c.addr at)
unfolding join_free
join_free-step fuel at b c bs ch = rw (==_ne b.addr 0 ch.0, ch.1, ==_ne c.addr 0 ch.3.0, ch.3.1)

pub join_free-join :
    (fuel : ℕ) (at : ℕ → Header) (b : Block) (bs : List Block)
    → length bs < fuel
    → total (b ∷ bs) < 2 ^ 64
    → Chain at (b ∷ bs)
    → Joins b bs at (join_free fuel b.addr at)
unfolding join
join_free-join zero at b bs long small ch = absurd (omega arith)
join_free-join (suc fuel) at b [] long small ch = record {
  result = at;
  ends = join_free-last fuel at b ch;
  chain = ch;
  same = λ a out. refl;
}
join_free-join (suc fuel) at b (c ∷ bs) long small ch =
    let fits : u64 (b.size + (header_size + c.size)) ≡ b.size + (header_size + c.size) =
      omega arith in
    elim (Bool-cases (b.free && c.free)) [
      | inl both ↦
          let at' = put b.addr (header (joined b c) bs) at in
          let ih =
            join_free-join fuel at' (joined b c) bs (omega arith) (omega arith)
              (ch.0, ground arith, ch.2.1, Chain-put at b.addr _ bs ch.2.1 ch.3.3) in
          record {
            result = ih.result;
            ends =
                join_free-step fuel at b c bs ch
                ∙ rw both refl
                ∙ ap
                    (λ n.
                      join_free fuel b.addr
                        (put b.addr (record { next = start bs; size = n; is_free = b.free }) at))
                    fits
                ∙ ih.ends;
            chain = rw both ih.chain;
            same = λ a out. ih.same a (out.0, out.1.1) ∙ ground arith;
          }
      | inr apart ↦
          let ih = join_free-join fuel at c bs (omega arith) (omega arith) ch.3 in
          record {
            result = ih.result;
            ends = join_free-step fuel at b c bs ch ∙ rw apart ih.ends;
            chain = rw apart (
              ch.0,
              ih.same b.addr ch.2
                  ∙ ch.1
                  ∙ ap (λ n. record { next = n; size = b.size; is_free = b.free })
                      (sym (start-join c bs)),
              NotAt-join b.addr c bs ch.2,
              ih.chain,
            );
            same = λ a out. ih.same a out.1;
          }
    ]
