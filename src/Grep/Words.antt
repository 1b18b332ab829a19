-- ===== src/Grep/Words.antt =====
-- match against the words of a regular expression.
use mc.Prelude.{
  ℕ, List, [], ◌∷◌, ◌++◌, Bool, true, false, ◌&&◌, ◌||◌, if◌then◌else◌, ◌==◌, ◌≡◌, refl, sym, ap,
  ap₂, ◌∙◌, ◌↔◌, ◌⊎◌, inl, inr, Bool-cases,
}
use mc.Grep.{is_end, accepts, star_loop, one_char, matchhere, match_from, match}

-- An expression is a list of characters, some of them starred, maybe tied to the ends of the text.
pub data Item : Type 0 where
  one : ℕ → Item
  star : ℕ → Item

pub record Regex : Type 0 where
  pub items : List Item
  pub at_end : Bool

abbrev pub parse : List ℕ → Regex
parse [] = record { items = []; at_end = false }
parse (c ∷ []) =
    if c == b'$'
    then record { items = []; at_end = true }
    else record { items = one c ∷ []; at_end = false }
parse (c ∷ d ∷ re) =
    let r = parse re in
    let s = parse (d ∷ re) in
    if d == b'*'
    then record r { items = star c ∷ r.items }
    else record s { items = one c ∷ s.items }

-- the words of a list of items
pub data Word : List Item → List ℕ → Type 0 where
  no_more : Word [] []
  read_one :
      {c x : ℕ} {is : List Item} {w : List ℕ}
      → accepts c x ≡ true
      → Word is w
      → Word (one c ∷ is) (x ∷ w)
  leave_star : {c : ℕ} {is : List Item} {w : List ℕ} → Word is w → Word (star c ∷ is) w
  take_star :
      {c x : ℕ} {is : List Item} {w : List ℕ}
      → accepts c x ≡ true
      → Word (star c ∷ is) w
      → Word (star c ∷ is) (x ∷ w)

-- The text begins with a word, and has no more where the expression ends in `$`.
pub record Begins (is : List Item) (at_end : Bool) (text : List ℕ) : Type 0 where
  pub word : List ℕ
  pub post : List ℕ
  pub split : text ≡ word ++ post
  pub is_word : Word is word
  pub ends : at_end ≡ true → post ≡ []

-- matchhere over the items
abbrev begins : List Item → Bool → List ℕ → Bool
begins [] e text = if e then is_end text else true
begins (one c ∷ is) e text = one_char (begins is e) c text
begins (star c ∷ is) e text = star_loop (begins is e) c text

&&_left : (a b : Bool) → (a && b) ≡ true → a ≡ true
&&_left true b t = refl
&&_left false b t = t

&&_right : (a b : Bool) → (a && b) ≡ true → b ≡ true
&&_right true b t = t
&&_right false b t = absurd (cc)

||_cases : (a b : Bool) → (a || b) ≡ true → (a ≡ true) ⊎ (b ≡ true)
||_cases true b t = inl refl
||_cases false b t = inr t

||_true : (a : Bool) → (a || true) ≡ true
||_true true = refl
||_true false = refl

one_char-same :
    {f g : List ℕ → Bool} (c : ℕ) (text : List ℕ)
    → ((t : List ℕ) → f t ≡ g t)
    → one_char f c text ≡ one_char g c text
one_char-same c [] h = refl
one_char-same c (x ∷ text) h = ap (λ b. accepts c x && b) (h text)

star_loop-same :
    {f g : List ℕ → Bool} (c : ℕ) (text : List ℕ)
    → ((t : List ℕ) → f t ≡ g t)
    → star_loop f c text ≡ star_loop g c text
unfolding star_loop
star_loop-same c [] h = h []
star_loop-same c (x ∷ text) h =
    ap₂ (λ a b. a || (accepts c x && b)) (h (x ∷ text)) (star_loop-same c text h)

matchhere-begins :
    (re text : List ℕ) → matchhere re text ≡ begins (parse re).items (parse re).at_end text
unfolding matchhere
matchhere-begins [] text = refl
matchhere-begins (c ∷ []) text = elim (Bool-cases (c == b'$')) [
  | inl y ↦ rw (matchhere, y)
  | inr n ↦ rw (matchhere, n) (one_char-same c text (λ t. refl))
]
matchhere-begins (c ∷ d ∷ re) text = elim (Bool-cases (d == b'*')) [
  | inl y ↦ rw (matchhere, y) (star_loop-same c text (matchhere-begins re))
  | inr n ↦ rw (matchhere, n) (one_char-same c text (matchhere-begins (d ∷ re)))
]

-- What begins answers is right about Begins.
abbrev Tells : List Item → Bool → (List ℕ → Bool) → Type 0
Tells is e f = (text : List ℕ) → (f text ≡ true) ↔ Begins is e text

no_items : (e : Bool) → Tells [] e (begins [] e)
no_items e text = (found e text, λ b. all e text b.word b.post b.split b.is_word b.ends)
  where
    found : (e : Bool) (text : List ℕ) → begins [] e text ≡ true → Begins [] e text
    found false text h = record {
      word = [];
      post = text;
      split = refl;
      is_word = no_more;
      ends = λ z. absurd (cc);
    }
    found true [] h = record {
      word = [];
      post = [];
      split = refl;
      is_word = no_more;
      ends = λ z. refl;
    }
    found true (x ∷ text) h = absurd (cc)

    all :
        (e : Bool) (text w post : List ℕ)
        → text ≡ w ++ post
        → Word [] w
        → (e ≡ true → post ≡ [])
        → begins [] e text ≡ true
    all false text w post s d h = refl
    all true text [] post s no_more h = rw (s, h refl)
    all true text (x ∷ w) post s d h = elim d [ ]

module _ (c : ℕ) (is : List Item) (e : Bool) (f : List ℕ → Bool) (h : Tells is e f) where
  one_char-found : (text : List ℕ) → one_char f c text ≡ true → Begins (one c ∷ is) e text
  one_char-found [] t = absurd (cc)
  one_char-found (x ∷ text) t =
      let b = (h text).0 (&&_right (accepts c x) (f text) t) in
      record {
        word = x ∷ b.word;
        post = b.post;
        split = ap (λ r. x ∷ r) b.split;
        is_word = read_one (&&_left (accepts c x) (f text) t) b.is_word;
        ends = b.ends;
      }

  one_char-Word :
      (w post : List ℕ)
      → Word (one c ∷ is) w
      → (e ≡ true → post ≡ [])
      → one_char f c (w ++ post) ≡ true
  one_char-Word [] post d z = elim d [ ]
  one_char-Word (x ∷ w) post (read_one a d) z =
      rw (a)
        ((h (w ++ post)).1 (record { word = w; post = post; split = refl; is_word = d; ends = z }))

  one_char-Tells : Tells (one c ∷ is) e (one_char f c)
  one_char-Tells text =
      (one_char-found text, λ b. rw (b.split) (one_char-Word b.word b.post b.is_word b.ends))

  star_loop-here : (text : List ℕ) → f text ≡ true → star_loop f c text ≡ true
  unfolding star_loop
  star_loop-here [] t = t
  star_loop-here (x ∷ text) t = rw (t)

  leave_all : (text : List ℕ) → f text ≡ true → Begins (star c ∷ is) e text
  leave_all text t =
      let b = (h text).0 t in
      record {
        word = b.word;
        post = b.post;
        split = b.split;
        is_word = leave_star b.is_word;
        ends = b.ends;
      }

  star_loop-found : (text : List ℕ) → star_loop f c text ≡ true → Begins (star c ∷ is) e text
  unfolding star_loop
  star_loop-found [] t = leave_all [] t
  star_loop-found (x ∷ text) t =
      elim (||_cases (f (x ∷ text)) (accepts c x && star_loop f c text) t) [
        | inl y ↦ leave_all (x ∷ text) y
        | inr y ↦
            let b = star_loop-found text (&&_right (accepts c x) (star_loop f c text) y) in
            record {
              word = x ∷ b.word;
              post = b.post;
              split = ap (λ r. x ∷ r) b.split;
              is_word = take_star (&&_left (accepts c x) (star_loop f c text) y) b.is_word;
              ends = b.ends;
            }
      ]

  star_loop-Word :
      (w post : List ℕ)
      → Word (star c ∷ is) w
      → (e ≡ true → post ≡ [])
      → star_loop f c (w ++ post) ≡ true
  unfolding star_loop
  star_loop-Word w post (leave_star d) z =
      star_loop-here (w ++ post)
        ((h (w ++ post)).1 (record { word = w; post = post; split = refl; is_word = d; ends = z }))
  star_loop-Word (x ∷ w) post (take_star a d) z =
      ap₂ (λ a b. f (x ∷ (w ++ post)) || (a && b)) a (star_loop-Word w post d z)
      ∙ ||_true (f (x ∷ (w ++ post)))

  star_loop-Tells : Tells (star c ∷ is) e (star_loop f c)
  star_loop-Tells text =
      (star_loop-found text, λ b. rw (b.split) (star_loop-Word b.word b.post b.is_word b.ends))

begins-Tells : (is : List Item) (e : Bool) → Tells is e (begins is e)
begins-Tells [] e = no_items e
begins-Tells (one c ∷ is) e = one_char-Tells c is e (begins is e) (begins-Tells is e)
begins-Tells (star c ∷ is) e = star_loop-Tells c is e (begins is e) (begins-Tells is e)

matchhere-Begins : (re : List ℕ) → Tells (parse re).items (parse re).at_end (matchhere re)
matchhere-Begins re text =
    let t = begins-Tells (parse re).items (parse re).at_end text in
    let e = matchhere-begins re text in (λ m. t.0 (sym e ∙ m), λ b. e ∙ t.1 b)

-- A text has a word of an expression in it: after no bytes where the expression starts with `^`, and
-- before none where it ends with `$`.
pub record Occurs (re : Regex) (at_start : Bool) (text : List ℕ) : Type 0 where
  pub pre : List ℕ
  pub word : List ℕ
  pub post : List ℕ
  pub split : text ≡ pre ++ (word ++ post)
  pub is_word : Word re.items word
  pub starts : at_start ≡ true → pre ≡ []
  pub ends : re.at_end ≡ true → post ≡ []

abbrev pub tied : List ℕ → Bool
tied [] = false
tied (c ∷ re) = c == b'^'

abbrev pub untied : List ℕ → List ℕ
untied [] = []
untied (c ∷ re) = if c == b'^' then re else c ∷ re

at_front :
    (re : Regex) (a : Bool) (text : List ℕ) → Begins re.items re.at_end text → Occurs re a text
at_front re a text b = record {
  pre = [];
  word = b.word;
  post = b.post;
  split = b.split;
  is_word = b.is_word;
  starts = λ z. refl;
  ends = b.ends;
}

match_from-found : (re text : List ℕ) → match_from re text ≡ true → Occurs (parse re) false text
unfolding match_from
match_from-found re [] t = at_front (parse re) false [] ((matchhere-Begins re []).0 t)
match_from-found re (x ∷ text) t =
    elim (||_cases (matchhere re (x ∷ text)) (match_from re text) t) [
      | inl y ↦ at_front (parse re) false (x ∷ text) ((matchhere-Begins re (x ∷ text)).0 y)
      | inr y ↦
          let o = match_from-found re text y in
          record {
            pre = x ∷ o.pre;
            word = o.word;
            post = o.post;
            split = ap (λ r. x ∷ r) o.split;
            is_word = o.is_word;
            starts = λ z. absurd (cc);
            ends = o.ends;
          }
    ]

match_from-here : (re text : List ℕ) → matchhere re text ≡ true → match_from re text ≡ true
unfolding match_from
match_from-here re [] t = t
match_from-here re (x ∷ text) t = rw (t)

match_from-later :
    (re pre text : List ℕ) → matchhere re text ≡ true → match_from re (pre ++ text) ≡ true
unfolding match_from
match_from-later re [] text t = match_from-here re text t
match_from-later re (x ∷ pre) text t =
    ap (λ b. matchhere re (x ∷ (pre ++ text)) || b) (match_from-later re pre text t)
    ∙ ||_true (matchhere re (x ∷ (pre ++ text)))

match_from-Occurs : (re text : List ℕ) → (match_from re text ≡ true) ↔ Occurs (parse re) false text
match_from-Occurs re text = (
  match_from-found re text,
  λ o. rw (o.split) (
      match_from-later re o.pre (o.word ++ o.post) (
        (matchhere-Begins re (o.word ++ o.post)).1 (record {
          word = o.word;
          post = o.post;
          split = refl;
          is_word = o.is_word;
          ends = o.ends;
        }))),
)

-- match answers true exactly on the texts that have a word of the expression in them, at their start
-- where the expression begins with `^`, and up to their end where it ends with `$`.
pub match_lem :
    (re text : List ℕ) → (match re text ≡ true) ↔ Occurs (parse (untied re)) (tied re) text
unfolding match
match_lem [] text = match_from-Occurs [] text
match_lem (c ∷ re) text = elim (Bool-cases (c == b'^')) [
  | inl y ↦
      rw (match, y)
        (
          λ t. at_front (parse re) true text ((matchhere-Begins re text).0 t),
          λ o. (matchhere-Begins re text).1 (record {
            word = o.word;
            post = o.post;
            split = o.split ∙ ap (λ p. p ++ (o.word ++ o.post)) (o.starts refl);
            is_word = o.is_word;
            ends = o.ends;
          }),
        )
  | inr n ↦ rw (match, n) (match_from-Occurs (c ∷ re) text)
]
