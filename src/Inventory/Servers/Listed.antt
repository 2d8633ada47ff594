-- ===== src/Inventory/Servers/Listed.antt =====
-- What a list of servers stands on.
use tradetrack_mt5_server.Prelude.{
  ℕ, nat_beq, zero, suc, ◌+◌, ◌≡◌, ◌≤◌, ◌⊎◌, inl, inr, String, true, not, ◌||◌, some, List, [], ◌∷◌,
  All, length, ltb, leb, leb→le, ok, >>=-eq-ok, ◌==◌, text_key, ==_sound, arith, refl, sym, ap, ◌∙◌,
  subst, Bool-cases,
}
use tradetrack_mt5_server.Prelude.Int.{ℤ, pos, negsuc, same_ℤ, same_ℤ_iff}
use Prim.Native.String.{count, [], ◌∷◌}
use Prim.Native.String.count.{nil, cons}
use Prim.Native.Char.{code}
use tradetrack_mt5_server.Throttle.{seconds}
use tradetrack_mt5_server.Catalogues.{in_names}
use tradetrack_mt5_server.Normalization.Sorting.{Member, All-Member, sorted, All-sorted, Any-sorted}
use tradetrack_mt5_server.Inventory.Processes.{same_identity}
use tradetrack_mt5_server.Inventory.Reports.Evidence.{same_identity_sound}
use tradetrack_mt5_server.Inventory.Servers.{
  Turn, Combo, buffer_size, buffer_value, is_name_length, read_name, read_names, set_of,
  text_before, checked_size, end_reading, read_servers,
}

-- A name whose turn began in time: the box said a length of 1 to 128 and then copied as much, and the
-- name is what the buffer of one character more has before a NUL.
abbrev pub IsRead : ℕ → Turn → String → Type 0
IsRead deadline t x =
    (n : ℕ) × (t.clock ≤ deadline)
    × (1 ≤ n)
    × (n ≤ 128)
    × (t.length ≡ ok (pos n))
    × (t.copied ≡ ok (pos n))
    × (buffer_value (suc n) t.buffer ≡ x)
    × (count x ≤ 129)

-- The names of the turns from an index on.
abbrev pub AreRead : ℕ → (ℕ → Turn) → ℕ → List String → Type 0
AreRead deadline turns i [] = Unit
AreRead deadline turns i (x ∷ xs) = IsRead deadline (turns i) x × AreRead deadline turns (suc i) xs

abbrev pub IsListed : String → Combo → List String → Type 0
IsListed identity c names =
    (n : ℕ) × (read : List String) × (c.before ≡ some identity)
    × (c.count ≡ ok (pos n))
    × (n ≤ 1000)
    × (length read ≡ n)
    × AreRead (c.start + 20000) c.turns 0 read
    × (c.again ≡ ok (pos n))
    × (c.after ≡ some identity)
    × All (λ x. Member x read) names
    × All (λ x. Member x names) read

length-pos : (l : ℤ) → is_name_length l ≡ true → (n : ℕ) × (l ≡ pos n) × (1 ≤ n) × (n ≤ 128)
length-pos (pos n) h = (n, refl, ground arith, ground arith)
length-pos (negsuc n) h = cc

count-buffer_value : (n : ℕ) (s : String) → count (buffer_value n s) ≤ n
unfolding buffer_value
count-buffer_value zero s = rw nil (omega arith)
count-buffer_value (suc n) [] = rw nil (omega arith)
count-buffer_value (suc n) (c ∷ s) = elim (Bool-cases (nat_beq (code c) 0)) [
  | inl end ↦ rw (end, nil) (omega arith)
  | inr more ↦
      rw (more, cons c (buffer_value n s)) (let h = count-buffer_value n s in omega (arith, h))
]

short_name : (n : ℕ) (x s : String) → buffer_value (suc n) s ≡ x → n ≤ 128 → count x ≤ 129
short_name n x s e hi =
    subst (λ y. count y ≤ 129) e (let h = count-buffer_value (suc n) s in omega (arith, h, hi))

read_name-IsRead :
    (deadline : ℕ) (t : Turn) (x : String) → read_name deadline t ≡ ok x → IsRead deadline t x
unfolding read_name
read_name-IsRead deadline t x h = elim (Bool-cases (ltb deadline t.clock)) [
  | inl late ↦ absurd (let k = rw late at h in cc)
  | inr early ↦
      let (l, read, rest) = >>=-eq-ok t.length _ (rw early at h) in
      elim (Bool-cases (is_name_length l)) [
        | inr bad ↦ absurd (let k = rw bad at rest in cc)
        | inl good ↦
            let (m, copied, last) = >>=-eq-ok t.copied _ (rw good at rest) in
            elim (Bool-cases (same_ℤ m l)) [
              | inr other ↦ absurd (let k = rw other at last in cc)
              | inl same ↦
                  let (n, e, lo, hi) = length-pos l good in
                  let name : ok (buffer_value (buffer_size l) t.buffer) ≡ ok x = rw same at last in
                  let value : buffer_value (buffer_size l) t.buffer ≡ x = cc in
                  let whole : buffer_value (suc n) t.buffer ≡ x =
                    ap (λ k. buffer_value (buffer_size k) t.buffer) (sym e) ∙ value in
                  (
                    n,
                    ground arith,
                    lo,
                    hi,
                    read ∙ ap ok e,
                    copied ∙ ap ok ((same_ℤ_iff m l).0 same ∙ e),
                    whole,
                    short_name n x t.buffer whole hi,
                  )
            ]
      ]
]

read_names-AreRead :
    (deadline : ℕ) (turns : ℕ → Turn) (i rest : ℕ) (names : List String)
    → read_names deadline turns i rest ≡ ok names
    → (length names ≡ rest) × AreRead deadline turns i names
unfolding read_names
read_names-AreRead deadline turns i zero [] h = (refl, tt)
read_names-AreRead deadline turns i zero (x ∷ names) h = cc
read_names-AreRead deadline turns i (suc rest) names h =
    let (x, first, later) = >>=-eq-ok (read_name deadline (turns i)) _ h in
    let (xs, more, e) = >>=-eq-ok (read_names deadline turns (suc i) rest) _ later in
    let (n, read) = read_names-AreRead deadline turns (suc i) rest xs more in
    let k : x ∷ xs ≡ names = cc in
    subst (λ l. (length l ≡ suc rest) × AreRead deadline turns i l) k
      (ap suc n, (read_name-IsRead deadline (turns i) x first, read))

in_names-Member : (x : String) (names : List String) → in_names x names ≡ true → Member x names
unfolding in_names
in_names-Member x [] h = cc
in_names-Member x (y ∷ names) h = elim (Bool-cases (x == y)) [
  | inl same ↦ inl (==_sound x y same)
  | inr other ↦ inr (in_names-Member x names (ground arith))
]

first_or :
    (x y : String) (names set : List String)
    → (x ≡ y) ⊎ Member x set
    → (Member x set → Member x names)
    → Member x (y ∷ names)
first_or x y names set (inl e) later = inl e
first_or x y names set (inr k) later = inr (later k)

set_of-Member : (x : String) (names : List String) → Member x (set_of names) → Member x names
unfolding set_of
set_of-Member x [] m = m
set_of-Member x (y ∷ names) m = elim (Bool-cases (in_names y (set_of names))) [
  | inl known ↦ inr (set_of-Member x names (rw (set_of, known) at m))
  | inr new ↦
      first_or x y names (set_of names) (rw (set_of, new) at m) (λ k. set_of-Member x names k)
]

Member-set_of : (x : String) (names : List String) → Member x names → Member x (set_of names)
unfolding set_of
Member-set_of x [] m = m
Member-set_of x (y ∷ names) (inl e) = elim (Bool-cases (in_names y (set_of names))) [
  | inl known ↦
      rw (set_of, known)
        (subst (λ z. Member z (set_of names)) (sym e) (in_names-Member y (set_of names) known))
  | inr new ↦ rw (set_of, new) (inl e)
]
Member-set_of x (y ∷ names) (inr m) = elim (Bool-cases (in_names y (set_of names))) [
  | inl known ↦ rw (set_of, known) (Member-set_of x names m)
  | inr new ↦ rw (set_of, new) (inr (Member-set_of x names m))
]

sorted-All : (names : List String) → All (λ x. Member x names) (sorted text_before (set_of names))
sorted-All names =
    All-sorted text_before _ (set_of names)
      (All-Member _ (set_of names) (λ x m. set_of-Member x names m))

All-sorted_set :
    (names : List String) → All (λ x. Member x (sorted text_before (set_of names))) names
All-sorted_set names =
    All-Member _ names (λ x m. Any-sorted text_before _ (set_of names) (Member-set_of x names m))

checked_size-eq-ok : (l : ℤ) (n : ℕ) → checked_size l ≡ ok n → (l ≡ pos n) × (n ≤ 1000)
unfolding checked_size
checked_size-eq-ok (negsuc k) n h = cc
checked_size-eq-ok (pos k) n h = elim (Bool-cases (leb k 1000)) [
  | inr many ↦ absurd (let e = rw many at h in cc)
  | inl few ↦
      let e : ok k ≡ ok n = rw few at h in
      let same : k ≡ n = cc in (ap pos same, subst (λ j. j ≤ 1000) same (leb→le k 1000 few))
]

end_reading-eq-ok :
    (identity : String) (c : Combo) (n : ℕ) (read : List String) (again : ℤ) (names : List String)
    → end_reading identity c n read again ≡ ok names
    → (again ≡ pos n) × (c.after ≡ some identity) × (sorted text_before (set_of read) ≡ names)
end_reading-eq-ok identity c n read again names h =
    elim (Bool-cases (not (same_ℤ again (pos n)) || not (same_identity c.after identity))) [
      | inl changed ↦ absurd (let e = rw changed at h in cc)
      | inr kept ↦
          let e : ok (sorted text_before (set_of read)) ≡ ok names = rw kept at h in
          (
            (same_ℤ_iff again (pos n)).0 (ground arith),
            same_identity_sound c.after identity (ground arith),
            cc,
          )
    ]

-- If the box of the login dialog gives a list of names, then the process was the same before and after
-- the reading, and the box counted as many names before and after it, at most 1000. The turn of each
-- name began within 20 seconds; in it the box said a length from 1 to 128 and copied as much, and the
-- name, of at most 129 characters, is what the buffer has before a NUL. The list has the names that
-- were read and no others.
pub read_servers-IsListed :
    (identity : String) (c : Combo) (names : List String)
    → read_servers identity c ≡ ok names
    → IsListed identity c names
unfolding read_servers
read_servers-IsListed identity c names h = elim (Bool-cases (same_identity c.before identity)) [
  | inr other ↦ absurd (let e = rw other at h in cc)
  | inl same ↦
      let (l, count, h1) = >>=-eq-ok c.count _ (rw same at h) in
      let (n, size, h2) = >>=-eq-ok (checked_size l) _ h1 in
      let (read, loop, h3) = >>=-eq-ok (read_names (c.start + seconds 20) c.turns 0 n) _ h2 in
      let (again, counted, h4) = >>=-eq-ok c.again _ h3 in
      let (whole, few) = checked_size-eq-ok l n size in
      let (long, turns) = read_names-AreRead (c.start + 20000) c.turns 0 n read loop in
      let (recounted, after, e) = end_reading-eq-ok identity c n read again names h4 in
      (
        n,
        read,
        same_identity_sound c.before identity same,
        count ∙ ap ok whole,
        few,
        long,
        turns,
        counted ∙ ap ok recounted,
        after,
        subst (λ x. All (λ y. Member y read) x) e (sorted-All read),
        subst (λ x. All (λ y. Member y x) read) e (All-sorted_set read),
      )
]
