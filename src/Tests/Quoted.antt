-- ===== src/Tests/Quoted.antt =====
-- The documented `pq.QuoteIdentifier`, and the statements on memberships that are written with it.
use Prim.Native.Char.{Char, char, code}
use Prim.Native.String.{[], ◌∷◌, ◌++◌}
use text.Mathlib.TextLemmas.{nil-append, cons-append, head-eq_of_cons-eq, append_cancel_left}
use text.Mathlib.TextEquality.{Char-path}
use terraform_provider_postg.Base.{
  true, false, inl, inr, Bool-cases, eq_iff, ◌==◌, Bool, ◌≢◌, String, ◌≡◌, refl, sym, ap, ◌∙◌,
  arith, ◌&&◌, not, ◌=ℕ◌, if◌then◌else◌,
}

abbrev quote : Char
quote = char b'"' tt

-- Behind the first quote: a quote is written twice, and the text is cut at a zero byte.
abbrev pub quote_body : String → String
quote_body [] = "\""
quote_body (c ∷ name) =
    let rest = quote_body name in
    if code c =ℕ 0 then "\"" else if code c =ℕ b'"' then quote ∷ (quote ∷ rest) else c ∷ rest

abbrev pub quote_identifier : String → String
quote_identifier name = quote ∷ quote_body name

-- A name without a zero byte.
abbrev pub is_whole : String → Bool
is_whole [] = true
is_whole (c ∷ name) = not (code c =ℕ 0) && is_whole name

abbrev pub grants : String → String → String
grants role mem = "GRANT " ++ (quote_identifier role ++ (" TO " ++ quote_identifier mem))

abbrev pub revokes : String → String → String
revokes role mem = "REVOKE " ++ (quote_identifier role ++ (" FROM " ++ quote_identifier mem))

-- The name behind a quote, and what follows it; `true` behind a quote of the name.
read_body : Bool → String → String × String
read_body _ [] = ("", "")
read_body false (c ∷ t) =
    let quoted = read_body true t in
    let rest = read_body false t in if code c =ℕ b'"' then quoted else (c ∷ rest.0, rest.1)
read_body true (c ∷ t) =
    let rest = read_body false t in if code c =ℕ b'"' then (quote ∷ rest.0, rest.1) else ("", c ∷ t)

abbrev starts_quoted : String → Bool
starts_quoted [] = false
starts_quoted (c ∷ t) = code c =ℕ b'"'

read-end : (x : String) → starts_quoted x ≡ false → read_body true x ≡ ("", x)
unfolding read_body
read-end [] e = refl
read-end (c ∷ t) e = rw e refl

one-append : (x : String) → "\"" ++ x ≡ quote ∷ x
one-append x = cons-append quote [] x ∙ ap (λ t. quote ∷ t) (nil-append x)

both : (a b : Bool) → (a && b) ≡ true → (a ≡ true) × (b ≡ true)
both a b h = (ground arith, ground arith)

read-quoted :
    (t u x : String)
    → read_body false t ≡ (u, x)
    → read_body false (quote ∷ (quote ∷ t)) ≡ (quote ∷ u, x)
unfolding read_body
read-quoted t u x h = ap (λ p. (quote ∷ p.0, p.1)) h

read-kept :
    (c : Char) (t u x : String)
    → (code c =ℕ b'"') ≡ false
    → read_body false t ≡ (u, x)
    → read_body false (c ∷ t) ≡ (c ∷ u, x)
unfolding read_body
read-kept c t u x e h = rw e (ap (λ p. (c ∷ p.0, p.1)) h)

read-quote_body :
    (name x : String)
    → is_whole name ≡ true
    → starts_quoted x ≡ false
    → read_body false (quote_body name ++ x) ≡ (name, x)
unfolding read_body
read-quote_body [] x w e = ap (read_body false) (one-append x) ∙ start
  where
    start : read_body false (quote ∷ x) ≡ ("", x)
    start = read-end x e
read-quote_body (c ∷ name) x w e =
    let (kept, whole) = both (not (code c =ℕ 0)) (is_whole name) w in
    let no_zero : (code c =ℕ 0) ≡ false = ground arith in
    let rest = read-quote_body name x whole e in
    elim (Bool-cases (code c =ℕ b'"')) [
      | inl q ↦
          let same : quote ≡ c = Char-path quote c (ground arith) in
          rw (no_zero, q)
            (ap (read_body false) (
                cons-append quote (quote ∷ quote_body name) x
                ∙ ap (λ t. quote ∷ t) (cons-append quote (quote_body name) x))
              ∙ read-quoted (quote_body name ++ x) name x rest
              ∙ ap (λ d. (d ∷ name, x)) same)
      | inr q ↦
          rw (no_zero, q)
            (ap (read_body false) (cons-append c (quote_body name) x)
              ∙ read-kept c (quote_body name ++ x) name x q rest)
    ]

-- The text behind the first character.
rest_of : String → String
rest_of [] = []
rest_of (c ∷ s) = s

quote_inj :
    (r s x y : String)
    → is_whole r ≡ true
    → is_whole s ≡ true
    → starts_quoted x ≡ false
    → starts_quoted y ≡ false
    → quote_identifier r ++ x ≡ quote_identifier s ++ y
    → (r ≡ s) × (x ≡ y)
unfolding rest_of
quote_inj r s x y wr ws ex ey h =
    let same = sym (reads r x wr ex) ∙ ap (λ t. read_body false (rest_of t)) h ∙ reads s y ws ey in
    (ap (λ p. p.0) same, ap (λ p. p.1) same)
  where
    reads :
        (n z : String)
        → is_whole n ≡ true
        → starts_quoted z ≡ false
        → read_body false (rest_of (quote_identifier n ++ z)) ≡ (n, z)
    reads n z w e =
        ap (λ t. read_body false (rest_of t)) (cons-append quote (quote_body n) z)
        ∙ read-quote_body n z w e

last_inj :
    (m n : String)
    → is_whole m ≡ true
    → is_whole n ≡ true
    → quote_identifier m ≡ quote_identifier n
    → m ≡ n
last_inj m n wm wn h = (quote_inj m n [] [] wm wn refl refl (ap (λ s. s ++ []) h)).0

plain_front :
    (c : Char) (t u : String) → (code c =ℕ b'"') ≡ false → starts_quoted ((c ∷ t) ++ u) ≡ false
plain_front c t u e = ap starts_quoted (cons-append c t u) ∙ e

abbrev pub Whole : String → String → Type 0
Whole r m = (is_whole r ≡ true) × (is_whole m ≡ true)

pub grants_inj :
    (r m r' m' : String) → Whole r m → Whole r' m' → grants r m ≡ grants r' m' → (r ≡ r') × (m ≡ m')
grants_inj r m r' m' (wr, wm) (wr', wm') h =
    let first =
      quote_inj r r' (" TO " ++ quote_identifier m) (" TO " ++ quote_identifier m') wr wr'
        (plain_front (char b' ' tt) "TO " (quote_identifier m) refl)
        (plain_front (char b' ' tt) "TO " (quote_identifier m') refl)
        (append_cancel_left "GRANT " _ _ h) in
    (first.0, last_inj m m' wm wm' (append_cancel_left " TO " _ _ first.1))

pub revokes_inj :
    (r m r' m' : String)
    → Whole r m
    → Whole r' m'
    → revokes r m ≡ revokes r' m'
    → (r ≡ r') × (m ≡ m')
revokes_inj r m r' m' (wr, wm) (wr', wm') h =
    let first =
      quote_inj r r' (" FROM " ++ quote_identifier m) (" FROM " ++ quote_identifier m') wr wr'
        (plain_front (char b' ' tt) "FROM " (quote_identifier m) refl)
        (plain_front (char b' ' tt) "FROM " (quote_identifier m') refl)
        (append_cancel_left "REVOKE " _ _ h) in
    (first.0, last_inj m m' wm wm' (append_cancel_left " FROM " _ _ first.1))

front : (a : Char) (s t : String) → (a ∷ s) ++ t ≡ a ∷ (s ++ t)
front a s t = cons-append a s t

g_not_r : code (char b'G' tt) ≡ code (char b'R' tt) → ⊥
g_not_r h = omega (arith, h)

-- A GRANT is no REVOKE.
pub grants≢revokes : (r m r' m' : String) → grants r m ≢ revokes r' m'
grants≢revokes r m r' m' h = g_not_r (
    ap code (
      head-eq_of_cons-eq
        (sym (front (char b'G' tt) "RANT " _) ∙ h ∙ front (char b'R' tt) "EVOKE " _)))

pub beq_of_iff : (s t : String) (b : Bool) → (b ≡ true → s ≡ t) → (s ≡ t → b ≡ true) → (s == t) ≡ b
beq_of_iff s t true f g = (eq_iff s t).1 (f refl)
beq_of_iff s t false f g = elim (Bool-cases (s == t)) [
  | inl e ↦ e ∙ sym (g ((eq_iff s t).0 e))
  | inr e ↦ e
]
