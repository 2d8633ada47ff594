-- ===== src/Inventory/Caption.antt =====
-- `read_only_caption_matches`: the caption of a session that cannot trade.
use tradetrack_mt5_server.Prelude.{
  ℕ, String, ◌≡◌, ◌≢◌, ◌⊎◌, inl, inr, ◌↔◌, Bool, true, false, not, ◌&&◌, ◌||◌, Option, none, some,
  List, [], ◌∷◌, Any, nat_beq, if◌then◌else◌, ◌==◌, ==_iff, ==_refl, ==_of_ne, ne_of_==, text_key,
  number_key, arith, refl, sym, ◌∙◌, Bool-cases, Option-cases,
}
use Prim.Native.Char.{code}
use Prim.Native.String.{◌++◌, [], ◌∷◌}
use text.Mathlib.TextEquality.{Char-path}
use text.Mathlib.TextLemmas.{nil-append, cons-append}

-- `VERIFIED_BUILDS` of app/collector/terminal_build.py.
abbrev pub verified_builds : List ℕ
verified_builds = 6182 ∷ 6190 ∷ 6193 ∷ 6204 ∷ 6230 ∷ 6231 ∷ 6246 ∷ []

-- The builds whose captions also say Netting.
abbrev pub netting_builds : List ℕ
netting_builds = 6182 ∷ 6231 ∷ 6246 ∷ []

unfoldable pub in_builds : ℕ → List ℕ → Bool
in_builds b [] = false
in_builds b (c ∷ builds) = nat_beq b c || in_builds b builds

same_head :
    {A : Type 0} (b : Bool) (x : Option A) {y : A}
    → (if b then x else none) ≡ some y
    → (b ≡ true) × (x ≡ some y)
same_head true x h = (refl, h)
same_head false x h = cc

-- The rest of a text after a prefix: `startswith` and the slice.
unfoldable pub after_prefix : String → String → Option String
after_prefix [] s = some s
after_prefix (c ∷ p) [] = none
after_prefix (c ∷ p) (d ∷ s) =
    let rest = after_prefix p s in if nat_beq (code c) (code d) then rest else none

unfoldable pub has_newline : String → Bool
has_newline [] = false
has_newline (c ∷ s) = nat_beq (code c) 10 || has_newline s

-- The pattern `.+`: a dot is no newline.
abbrev pub is_line : String → Bool
is_line s = not (s == "") && not (has_newline s)

-- A prefix, and then what the rest of the pattern takes.
unfoldable pub then_matches : String → (String → Bool) → String → Bool
unfolding after_prefix
then_matches p f s = elim (after_prefix p s) [ none ↦ false | some r ↦ f r ]

-- The pattern, by its fixed texts; `netting` tells whether the build also prints that mode.
module _ (demo read hedge net : String) where
  unfoldable pub is_mode : Bool → String → Bool
  is_mode netting s = then_matches hedge is_line s || (netting && then_matches net is_line s)

  unfoldable pub is_plain : Bool → String → Bool
  unfolding is_mode
  is_plain netting s = then_matches read (is_mode netting) s

  -- With the optional first part.
  unfoldable pub is_body : Bool → String → Bool
  unfolding is_plain
  is_body netting s = is_plain netting s || then_matches demo (is_plain netting) s

  abbrev pub demo_text : Bool → String
  demo_text true = demo
  demo_text false = ""

  abbrev pub mode_text : Bool → String
  mode_text true = net
  mode_text false = hedge

abbrev pub prefix_of : String → String → String
prefix_of login server = login ++ (" - " ++ (server ++ ": "))

-- `none` for a build that is no integer.
unfoldable pub read_only_caption_matches : String → String → String → Option ℕ → Bool
unfolding in_builds then_matches is_body
read_only_caption_matches caption login server none = false
read_only_caption_matches caption login server (some build) =
    in_builds build verified_builds
    && then_matches (prefix_of login server)
        (is_body "Demo Account - " "Read Only - " "Hedge - " "Netting - "
          (in_builds build netting_builds))
        caption

after_prefix-eq-some : (p s r : String) → after_prefix p s ≡ some r → s ≡ p ++ r
unfolding after_prefix
after_prefix-eq-some [] s r h = (let e : s ≡ r = cc in e) ∙ sym (nil-append r)
after_prefix-eq-some (c ∷ p) [] r h = cc
after_prefix-eq-some (c ∷ p) (d ∷ s) r h =
    let (same, rest) = same_head (nat_beq (code c) (code d)) (after_prefix p s) h in
    rw
      (
        cons-append c p r,
        Char-path c d ((==_iff (code c) (code d)).0 same),
        after_prefix-eq-some p s r rest,
      )
      refl

after_prefix_append : (p r : String) → after_prefix p (p ++ r) ≡ some r
unfolding after_prefix
after_prefix_append [] r = rw (nil-append r) refl
after_prefix_append (c ∷ p) r =
    rw (cons-append c p r, ==_refl (code c), after_prefix_append p r) refl

in_builds-Any : (b : ℕ) (builds : List ℕ) → in_builds b builds ≡ true → Any (λ c. b ≡ c) builds
unfolding in_builds
in_builds-Any b [] h = cc
in_builds-Any b (c ∷ builds) h = elim (Bool-cases (nat_beq b c)) [
  | inl same ↦ inl ((==_iff b c).0 same)
  | inr other ↦ inr (in_builds-Any b builds (ground arith))
]

Any-in_builds : (b : ℕ) (builds : List ℕ) → Any (λ c. b ≡ c) builds → in_builds b builds ≡ true
unfolding in_builds
Any-in_builds b [] h = absurd h
Any-in_builds b (c ∷ builds) (inl same) = rw (same, ==_refl c) refl
Any-in_builds b (c ∷ builds) (inr h) = ground (arith, Any-in_builds b builds h)

-- What is left after a prefix.
abbrev Rest : String → (String → Type 0) → String → Type 0
Rest p P s = (r : String) × (s ≡ p ++ r) × P r

then_matches-Rest :
    (p : String) (f : String → Bool) (s : String)
    → then_matches p f s ≡ true
    → Rest p (λ r. f r ≡ true) s
unfolding then_matches
then_matches-Rest p f s h = elim (Option-cases (after_prefix p s)) [
  | inl missing ↦ absurd (let k = rw (then_matches, missing) at h in cc)
  | inr (r, e) ↦ (r, after_prefix-eq-some p s r e, rw (then_matches, e) at h)
]

Rest-then_matches :
    (p : String) (f : String → Bool) (s : String)
    → Rest p (λ r. f r ≡ true) s
    → then_matches p f s ≡ true
unfolding then_matches
Rest-then_matches p f s (r, e, h) = rw (e, then_matches, after_prefix_append p r) h

and-parts : (a b : Bool) → (a && b) ≡ true → (a ≡ true) × (b ≡ true)
and-parts a b h = ground arith

and-both : (a b : Bool) → a ≡ true → b ≡ true → (a && b) ≡ true
and-both a b h k = ground arith

or-cases : (a b : Bool) → (a || b) ≡ true → (a ≡ true) ⊎ (b ≡ true)
or-cases a b h = ground arith

module _ (demo read hedge net : String) where
  abbrev Mode : Bool → String → Type 0
  Mode b s =
      (n : Bool) × (n ≡ true → b ≡ true)
      × (company : String) × (s ≡ mode_text demo read hedge net n ++ company)
      × (is_line company ≡ true)

  abbrev Printed : Bool → String → Type 0
  Printed b s =
      (d n : Bool) × (n ≡ true → b ≡ true)
      × (company : String) × (s
          ≡ demo_text demo read hedge net d
            ++ (read ++ (mode_text demo read hedge net n ++ company)))
      × (is_line company ≡ true)

  is_mode-Mode : (b : Bool) (s : String) → is_mode demo read hedge net b s ≡ true → Mode b s
  unfolding is_mode
  is_mode-Mode b s h =
      elim (or-cases (then_matches hedge is_line s) (b && then_matches net is_line s) h) [
        | inl plain ↦
            let (r, e, line) = then_matches-Rest hedge is_line s plain in
            (false, λ k. cc, r, e, line)
        | inr netting ↦
            let (r, e, line) = then_matches-Rest net is_line s (ground arith) in
            (true, λ k. ground arith, r, e, line)
      ]

  Mode-is_mode : (b : Bool) (s : String) → Mode b s → is_mode demo read hedge net b s ≡ true
  unfolding is_mode
  Mode-is_mode b s (false, allowed, r, e, line) =
      rw (Rest-then_matches hedge is_line s (r, e, line)) refl
  Mode-is_mode b s (true, allowed, r, e, line) =
      ground (arith, Rest-then_matches net is_line s (r, e, line), allowed refl)

  is_body-Printed : (b : Bool) (s : String) → is_body demo read hedge net b s ≡ true → Printed b s
  unfolding is_body is_plain
  is_body-Printed b s h =
      elim (or-cases (is_plain demo read hedge net b s)
        (then_matches demo (is_plain demo read hedge net b) s) h) [
          | inl plain ↦
              let (r, e, m) = then_matches-Rest read (is_mode demo read hedge net b) s plain in
              let (n, allowed, company, e', line) = is_mode-Mode b r m in
              (
                false,
                n,
                allowed,
                company,
                rw (e, e', nil-append (read ++ (mode_text demo read hedge net n ++ company))) refl,
                line,
              )
          | inr with_demo ↦
              let (t, e0, k) =
                then_matches-Rest demo (is_plain demo read hedge net b) s with_demo in
              let (r, e, m) = then_matches-Rest read (is_mode demo read hedge net b) t k in
              let (n, allowed, company, e', line) = is_mode-Mode b r m in
              (true, n, allowed, company, rw (e0, e, e') refl, line)
        ]

  Printed-is_body : (b : Bool) (s : String) → Printed b s → is_body demo read hedge net b s ≡ true
  unfolding is_body is_plain
  Printed-is_body b s (false, n, allowed, company, e, line) =
      rw
        (Rest-then_matches read (is_mode demo read hedge net b) s (
          mode_text demo read hedge net n ++ company,
          e ∙ nil-append _,
          Mode-is_mode b (mode_text demo read hedge net n ++ company)
              (n, allowed, company, refl, line),
        ))
        refl
  Printed-is_body b s (true, n, allowed, company, e, line) =
      let m =
        Mode-is_mode b (mode_text demo read hedge net n ++ company)
          (n, allowed, company, refl, line) in
      let plain =
        Rest-then_matches read (is_mode demo read hedge net b)
          (read ++ (mode_text demo read hedge net n ++ company))
          (mode_text demo read hedge net n ++ company, refl, m) in
      ground (
        arith,
        Rest-then_matches demo (is_plain demo read hedge net b) s
            (read ++ (mode_text demo read hedge net n ++ company), e, plain),
      )

-- A caption of the account in read-only mode, as a build prints it that is known to.
abbrev pub IsCaption : String → String → String → ℕ → Type 0
IsCaption caption login server build =
    Any (λ b. build ≡ b) verified_builds
    × (demo netting : Bool) × (netting ≡ true → Any (λ b. build ≡ b) netting_builds)
    × (company : String) × (caption
        ≡ prefix_of login server
          ++ (demo_text "Demo Account - " "Read Only - " "Hedge - " "Netting - " demo
              ++ ("Read Only - "
                  ++ (mode_text "Demo Account - " "Read Only - " "Hedge - " "Netting - " netting
                      ++ company))))
    × (company ≢ "")
    × (has_newline company ≡ false)

line-parts : (s : String) → is_line s ≡ true → (s ≢ "") × (has_newline s ≡ false)
line-parts s h = (ne_of_== s "" (ground arith), ground arith)

parts-line : (s : String) → s ≢ "" → has_newline s ≡ false → is_line s ≡ true
parts-line s ne free = rw (==_of_ne s "" ne, free) refl

-- `read_only_caption_matches` holds of a caption and an integer for a build exactly if the build is a
-- verified one and the caption is the login, the server, perhaps the words for a demo account, those
-- for read-only, a mode (Netting only from the three builds that print it) and a company's name on
-- one line.
pub read_only_caption_matches_iff :
    (caption login server : String) (build : ℕ)
    → (read_only_caption_matches caption login server (some build) ≡ true)
      ↔ IsCaption caption login server build
unfolding read_only_caption_matches
read_only_caption_matches_iff caption login server build = (forward, backward)
  where
    forward :
        read_only_caption_matches caption login server (some build) ≡ true
        → IsCaption caption login server build
    forward h =
        let (known, rest) = and-parts _ _ h in
        let (r, e, body) =
          then_matches-Rest (prefix_of login server)
            (is_body "Demo Account - " "Read Only - " "Hedge - " "Netting - "
              (in_builds build netting_builds))
            caption rest in
        let (d, n, allowed, company, e', line) =
          is_body-Printed "Demo Account - " "Read Only - " "Hedge - " "Netting - "
            (in_builds build netting_builds) r body in
        let (ne, free) = line-parts company line in
        (
          in_builds-Any build verified_builds known,
          d,
          n,
          λ k. in_builds-Any build netting_builds (allowed k),
          company,
          rw (e, e') refl,
          ne,
          free,
        )

    backward :
        IsCaption caption login server build
        → read_only_caption_matches caption login server (some build) ≡ true
    backward (known, d, n, allowed, company, e, ne, free) =
        and-both _ _ (Any-in_builds build verified_builds known) (
          Rest-then_matches (prefix_of login server)
            (is_body "Demo Account - " "Read Only - " "Hedge - " "Netting - "
              (in_builds build netting_builds))
            caption
            (
              _,
              e,
              Printed-is_body "Demo Account - " "Read Only - " "Hedge - " "Netting - "
                  (in_builds build netting_builds) _
                  (
                    d,
                    n,
                    λ k. Any-in_builds build netting_builds (allowed k),
                    company,
                    refl,
                    parts-line company ne free,
                  ),
            ))
