-- ===== src/Fat/Route.antt =====
-- The path string of src/fs/fat.c: ".." after a change into a directory.
use os_eojin.Base.{
  ℕ, zero, suc, ◌+◌, ◌-◌, ◌<◌, ◌≤◌, ◌≡◌, ◌≢◌, refl, true, ltb, ◌==◌, if◌then◌else◌, List, [], ◌∷◌,
  ◌++◌, length, get_or, take, All, arith, ap, ◌∙◌, ==_ne, sym, inl, inr, subst, get_or-append,
  length-append, lt→ltb, ◌⊎◌,
}
use os_eojin.Fat.Path.{cut_last, up, down}

abbrev IsNoSlash : ℕ → Type 0
IsNoSlash c = c ≢ b'/'

take-append : (front back : List ℕ) → take (length front) (front ++ back) ≡ front
take-append [] back = refl
take-append (c ∷ front) back = ap (λ l. c ∷ l) (take-append front back)

get_or-All : (name : List ℕ) (n : ℕ) → n < length name → All IsNoSlash name → get_or name n 0 ≢ b'/'
get_or-All [] n less ok = absurd (omega arith)
get_or-All (c ∷ name) zero less ok = ok.0
get_or-All (c ∷ name) (suc n) less ok = get_or-All name n (omega arith) ok.1

-- The loop passes over a name without '/' and cuts at the '/' before it.
cut_last-append :
    (front name : List ℕ) (n i : ℕ)
    → i ≡ suc (length front + n)
    → n ≤ length name
    → All IsNoSlash name
    → cut_last i (front ++ (b'/' ∷ name))
      ≡ (if length front == 0 then take 1 (front ++ (b'/' ∷ name)) else front)
unfolding cut_last
cut_last-append front name n zero e le ok = absurd (omega arith)
cut_last-append front name zero (suc i) e le ok =
    let here = get_or-append front (b'/' ∷ name) i 0 0 (omega arith) in
    let same : i ≡ length front = omega arith in
    rw (here, same, take-append front (b'/' ∷ name)) refl
cut_last-append front name (suc n) (suc i) e le ok =
    let here = get_or-append front (b'/' ∷ name) i (suc n) 0 (omega arith) in
    let other = get_or-All name n (omega arith) ok in
    rw (here, ==_ne (get_or name n 0) b'/' other)
      (cut_last-append front name n i (omega arith) (omega arith) ok)

-- A path that the kernel keeps: the root, or one that does not end in '/'.
abbrev pub IsPath : List ℕ → Type 0
IsPath path = (path ≡ (b'/' ∷ [])) ⊎ ((1 < length path) × (get_or path (length path - 1) 0 ≢ b'/'))

up-down_root :
    (name : List ℕ)
    → 0 < length name
    → All IsNoSlash name
    → length name + 3 < 256
    → up (down name (b'/' ∷ [])) ≡ b'/' ∷ []
up-down_root name pos ok room =
    let room' : ltb (1 + length name + 2) 256 ≡ true = ground arith in
    let more : ltb 1 (length (b'/' ∷ name)) ≡ true = ground arith in
    rw (room', more)
      (cut_last-append [] name (length name) (suc (length name)) (omega arith) (omega arith) ok)

-- For a path that is the root or has no slash at its end, with room for a name that is not empty and
-- has no slash: '..' undoes the change of the path string that entering a directory of that name makes.
pub up-down :
    (name path : List ℕ)
    → 0 < length name
    → All IsNoSlash name
    → IsPath path
    → length path + length name + 2 < 256
    → up (down name path) ≡ path
up-down name path pos ok (inl root) room =
    subst (λ p. up (down name p) ≡ p) (sym root)
      (up-down_root name pos ok (omega (arith, room, ap length root)))
up-down name path pos ok (inr (long, last)) room =
    let room' = lt→ltb _ _ room in
    let long' = lt→ltb _ _ long in
    let total = length-append path (b'/' ∷ name) in
    let more : ltb 1 (length (path ++ (b'/' ∷ name))) ≡ true = ground arith in
    rw (room', long', ==_ne _ _ last, more)
      (cut_last-append path name (length name) _ (omega (arith, total)) (omega arith) ok
        ∙ rw (==_ne (length path) 0 (omega arith)) refl)
