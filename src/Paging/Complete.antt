-- ===== src/Paging/Complete.antt =====
-- `all_elements` of lib.rs against a server that names each page's successor.
use mathlib.Core.List.{append_assoc}
use kr0ki.Common.{
  ℕ, zero, suc, ◌≤◌, ◌≡◌, ◌⊎◌, eqb, ◌∙◌, refl, sym, ap, subst, inl, inr, false, Option, none, some,
  List, [], ◌∷◌, ◌++◌, if◌then◌else◌, length, length-append, take, drop, last?, last?-snoc,
  option_map, is_empty, arith, All,
}
use kr0ki.Common.Results.{Result, ok, err}
use kr0ki.Common.Chars.{Text, same}
use kr0ki.Common.Chars.Splits.{NoneOf, same_refl, same_sym}
use kr0ki.Paging.{
  PageParamStyle, ElementPage, same_cursor, goes_on, pages_from, all_elements, page_of,
  derive_next_after,
}
use kr0ki.Paging.Decode.{Utf8}
use kr0ki.Paging.Link.Printed.{next_link}
use kr0ki.Paging.Cursor.{IsUtf8, HasBytes, page_url, derive_next_after-next_link}

goes_past :
    (next : Text) (after : Option Text)
    → same_cursor next after ≡ false
    → goes_on (some next) after ≡ some next
unfolding goes_on
goes_past next after moved = rw moved refl

-- One turn of the loop.
pages_step :
    {W A E : Type 0} (elements : Option Text → W → W × Result (ElementPage A) E) (left : ℕ)
    (after : Option Text) (out : List A) (w w' : W) (page : ElementPage A) (o : Option Text)
    → elements after w ≡ (w', ok page)
    → goes_on page.next_after after ≡ o
    → pages_from elements (suc left) after out w ≡ (elim o [
      | none ↦ (w', some (ok (out ++ page.items)))
      | some next ↦ pages_from elements left (some next) (out ++ page.items) w'
    ])
unfolding pages_from
pages_step elements left after out w w' page o answer on =
    ap
      (λ (v, a). elim a [
        | err e ↦ (v, some (err e))
        | ok p ↦ elim (goes_on p.next_after after) [
          | none ↦ (v, some (ok (out ++ p.items)))
          | some next ↦ pages_from elements left (some next) (out ++ p.items) v
        ]
      ])
      answer
    ∙ ap
        (λ o. elim o [
          | none ↦ (w', some (ok (out ++ page.items)))
          | some next ↦ pages_from elements left (some next) (out ++ page.items) w'
        ])
        on

module _ {A : Type 0} (at_id : A → Text) where
  -- The elements behind the one with an id.
  unfoldable behind : Text → List A → List A
  behind cursor [] = []
  behind cursor (e ∷ es) =
      let later = behind cursor es in if same (at_id e) cursor then es else later

  unfoldable from_cursor : Option Text → List A → List A
  from_cursor none es = es
  from_cursor (some cursor) es = behind cursor es

  -- The header of a page that leaves some elements out names the last element of the page.
  unfoldable header_of : Utf8 → PageParamStyle → Text → List A → List A → Option Text
  header_of utf8 style base page [] = none
  header_of utf8 style base page (e ∷ rest) =
      option_map (λ l. next_link (page_url utf8 style base (at_id l))) (last? page)

  -- A server that hands its elements out in pages of a size.
  unfoldable pub served :
      Utf8 → PageParamStyle → Text → ℕ → List A → Option Text → Option Text × List A
  unfolding behind from_cursor header_of
  served utf8 style base size es after =
      let rest = from_cursor after es in
      (header_of utf8 style base (take size rest) (drop size rest), take size rest)

  -- The ids are those of one element each.
  abbrev pub Distinct : List A → Type 0
  Distinct [] = Unit
  Distinct (e ∷ es) = All (λ d. same (at_id e) (at_id d) ≡ false) es × Distinct es

  All-at : (P : A → Type 0) (es : List A) (l : A) (rest : List A) → All P (es ++ (l ∷ rest)) → P l
  All-at P [] l rest h = h.0
  All-at P (e ∷ es) l rest h = All-at P es l rest h.1

  Distinct-behind :
      (es : List A) (l : A) (rest : List A)
      → Distinct (es ++ (l ∷ rest))
      → All (λ d. same (at_id l) (at_id d) ≡ false) rest
  Distinct-behind [] l rest h = h.0
  Distinct-behind (e ∷ es) l rest h = Distinct-behind es l rest h.1

  behind-found :
      (es : List A) (l : A) (rest : List A)
      → Distinct (es ++ (l ∷ rest))
      → behind (at_id l) (es ++ (l ∷ rest)) ≡ rest
  unfolding behind
  behind-found [] l rest h = rw (same_refl (at_id l)) refl
  behind-found (e ∷ es) l rest h =
      rw (All-at (λ d. same (at_id e) (at_id d) ≡ false) es l rest h.0) (behind-found es l rest h.1)

  All-flip :
      (l : A) (es : List A)
      → All (λ d. same (at_id l) (at_id d) ≡ false) es
      → All (λ d. same (at_id d) (at_id l) ≡ false) es
  All-flip l [] h = tt
  All-flip l (e ∷ es) h = (same_sym (at_id e) (at_id l) ∙ h.0, All-flip l es h.1)

  -- A page is all there is, or there is an element behind its last one.
  cut :
      (m : ℕ) (es : List A)
      → ((drop (suc m) es ≡ []) × (take (suc m) es ≡ es))
        ⊎ ((q : List A) × (l : A) × (e : A) × (r : List A) × (es ≡ q ++ (l ∷ e ∷ r))
            × (take (suc m) es ≡ q ++ (l ∷ []))
            × (drop (suc m) es ≡ e ∷ r))
  cut m [] = inl (refl, refl)
  cut zero (x ∷ []) = inl (refl, refl)
  cut zero (x ∷ e ∷ r) = inr ([], x, e, r, refl, refl, refl)
  cut (suc m) (x ∷ es) = elim (cut m es) [
    | inl (none_left, all_) ↦ inl (none_left, ap (λ t. x ∷ t) all_)
    | inr (q, l, e, r, whole, page, left) ↦
        inr (x ∷ q, l, e, r, ap (λ t. x ∷ t) whole, ap (λ t. x ∷ t) page, left)
  ]

  module _ {W E : Type 0} (utf8 : Utf8) (laws : IsUtf8 utf8) (style : PageParamStyle) (base : Text)
      (no_comma : NoneOf (λ c. eqb c b',') base) (no_semicolon : NoneOf (λ c. eqb c b';') base)
      (no_query : NoneOf (λ c. eqb c b'?') base) (m : ℕ) (es : List A) (distinct : Distinct es)
      (named : All (λ e. HasBytes utf8 (at_id e) × (is_empty (at_id e) ≡ false)) es) where
    -- `elements` against the server.
    abbrev pub elements : Option Text → W → W × Result (ElementPage A) E
    elements after w = (w, page_of at_id utf8 style (ok (served utf8 style base (suc m) es after)))

    -- The page that a cursor leads to, by what the server has behind it.
    last_page :
        (after : Option Text) (rest : List A) (w : W)
        → from_cursor after es ≡ rest
        → drop (suc m) rest ≡ []
        → take (suc m) rest ≡ rest
        → elements after w ≡ (w, ok (record { items = rest; next_after = none }))
    unfolding page_of derive_next_after served
    last_page after rest w at left all_ = rw (at, left, all_) refl

    inner_page :
        (after : Option Text) (rest q : List A) (l e : A) (r : List A) (w : W)
        → from_cursor after es ≡ rest
        → take (suc m) rest ≡ q ++ (l ∷ [])
        → drop (suc m) rest ≡ e ∷ r
        → HasBytes utf8 (at_id l) × (is_empty (at_id l) ≡ false)
        → elements after w ≡ (w, ok (record { items = q ++ (l ∷ []); next_after = some (at_id l) }))
    unfolding page_of served header_of
    inner_page after rest q l e r w at page left (bytes, there) =
        let link : Option A → Option Text =
          λ o. option_map (λ l. next_link (page_url utf8 style base (at_id l))) o in
        let next : derive_next_after at_id utf8 (link (last? (q ++ (l ∷ [])))) (q ++ (l ∷ [])) none
              style
            ≡ some (at_id l) =
          ap (λ o. derive_next_after at_id utf8 (link o) (q ++ (l ∷ [])) none style)
            (last?-snoc q l)
          ∙ derive_next_after-next_link at_id utf8 style base (at_id l) (q ++ (l ∷ [])) none laws
              bytes there no_comma no_semicolon no_query in
        rw (at, page, left)
          (ap (λ n. (w, ok (record { items = q ++ (l ∷ []); next_after = n }))) next)

    pages_from-all :
        (fuel : ℕ) (after : Option Text) (pre rest : List A) (w : W)
        → length rest ≤ fuel
        → es ≡ pre ++ rest
        → from_cursor after es ≡ rest
        → All (λ d. same_cursor (at_id d) after ≡ false) rest
        → pages_from elements (suc fuel) after pre w ≡ (w, some (ok (pre ++ rest)))
    unfolding goes_on from_cursor behind
    pages_from-all zero after pre [] w few whole at fresh =
        pages_step elements 0 after pre w w _ none (last_page after [] w at refl refl) refl
    pages_from-all zero after pre (d ∷ rest) w few whole at fresh = absurd (omega arith)
    pages_from-all (suc fuel) after pre rest w few whole at fresh = elim (cut m rest) [
      | inl (left, all_) ↦
          pages_step elements (suc fuel) after pre w w _ none (last_page after rest w at left all_)
            refl
      | inr (q, l, e, r, split, page, left) ↦
          let front : es ≡ (pre ++ q) ++ (l ∷ e ∷ r) =
            whole ∙ ap (λ t. pre ++ t) split ∙ sym (append_assoc pre q (l ∷ e ∷ r)) in
          let apart = subst Distinct front distinct in
          let text =
            All-at (λ e. HasBytes utf8 (at_id e) × (is_empty (at_id e) ≡ false)) (pre ++ q) l
              (e ∷ r)
              (subst (All (λ e. HasBytes utf8 (at_id e) × (is_empty (at_id e) ≡ false))) front
                named) in
          let moved =
            All-at (λ d. same_cursor (at_id d) after ≡ false) q l (e ∷ r)
              (subst (All (λ d. same_cursor (at_id d) after ≡ false)) split fresh) in
          let joined : (pre ++ (q ++ (l ∷ []))) ++ (e ∷ r) ≡ pre ++ rest =
            append_assoc pre (q ++ (l ∷ [])) (e ∷ r)
            ∙ ap (λ t. pre ++ t) (append_assoc q (l ∷ []) (e ∷ r) ∙ sym split) in
          let shorter : length (e ∷ r) ≤ fuel =
            omega (arith, few, ap length split, length-append q (l ∷ e ∷ r)) in
          pages_step elements (suc fuel) after pre w w _ (some (at_id l))
            (inner_page after rest q l e r w at page left text) (goes_past (at_id l) after moved)
          ∙ pages_from-all fuel (some (at_id l)) (pre ++ (q ++ (l ∷ []))) (e ∷ r) w shorter
              (whole ∙ sym joined)
              (ap (behind (at_id l)) front ∙ behind-found (pre ++ q) l (e ∷ r) apart)
              (All-flip l (e ∷ r) (Distinct-behind (pre ++ q) l (e ∷ r) apart))
          ∙ ap (λ all_. (w, some (ok all_))) joined
    ]

all_true : {A : Type 0} (P : A → Type 0) (es : List A) → ((d : A) → P d) → All P es
all_true P [] h = tt
all_true P (e ∷ es) h = (h e, all_true P es h)

-- A server hands out elements with distinct and non-empty ids in pages of a positive size, and names
-- the last element of a page in the `Link` header when others follow; its URL has no comma,
-- semicolon or question mark. Then `all_elements` ends within one turn more than there are elements,
-- and returns all of them in their order.
pub all_elements-served :
    {A W E : Type 0} (at_id : A → Text) (utf8 : Utf8) (style : PageParamStyle) (base : Text)
    (m fuel : ℕ) (es : List A) (w : W)
    → IsUtf8 utf8
    → NoneOf (λ c. eqb c b',') base
    → NoneOf (λ c. eqb c b';') base
    → NoneOf (λ c. eqb c b'?') base
    → Distinct at_id es
    → All (λ e. HasBytes utf8 (at_id e) × (is_empty (at_id e) ≡ false)) es
    → length es ≤ fuel
    → all_elements {W = W} {A = A} {E = E}
        (λ after w.
          (w, page_of at_id utf8 style (ok (served at_id utf8 style base (suc m) es after))))
        (suc fuel)
        w
      ≡ (w, some (ok es))
unfolding all_elements same_cursor from_cursor
all_elements-served at_id utf8 style base m fuel es w laws no_comma no_semicolon no_query distinct
      named enough =
    pages_from-all at_id utf8 laws style base no_comma no_semicolon no_query m es distinct named
      fuel none [] es w enough refl refl
      (all_true (λ d. same_cursor (at_id d) none ≡ false) es (λ d. refl))
