-- ===== src/Paging.antt =====
-- crates/kr0ki-sysmlv2-client/src/paging.rs and `all_elements` of its lib.rs: the cursor of the next
-- page. Texts are lists of the numbers of their characters.
pub mod Decode
pub mod Link
pub mod Cursor
pub mod Complete
mod Examples
use kr0ki.Common.{
  ℕ, zero, suc, Bool, true, false, not, ◌&&◌, Option, none, some, List, [], ◌∷◌, ◌++◌, ltb, leb,
  if◌then◌else◌, is_empty, length, last?, option_map, and_then,
}
use kr0ki.Common.Results.{Result, ok, err}
use kr0ki.Common.Chars.{Text, same, chars}
use kr0ki.Paging.Decode.{Utf8, extract_query_param}
use kr0ki.Paging.Link.{parse_link_next}

pub data PageParamStyle : Type 0 where
  hyphenated json_api_bracket : PageParamStyle

unfoldable pub after_key : PageParamStyle → Text
unfolding chars
after_key hyphenated = chars "page-after"
after_key json_api_bracket = chars "page[after]"

-- The cursor that a `Link` header names.
unfoldable pub linked : Utf8 → Option Text → PageParamStyle → Option Text
unfolding extract_query_param parse_link_next after_key
linked utf8 link_header style = and_then link_header (λ header.
    and_then (parse_link_next header) (λ url.
      and_then (extract_query_param utf8 url (after_key style))
        (λ cursor. if is_empty cursor then none else some cursor)))

module _ {A : Type 0} (at_id : A → Text) where
  -- The id of the last element of a full page of the size that was asked for.
  unfoldable pub full_page : List A → Option ℕ → Option Text
  full_page items none = none
  full_page items (some size) =
      if ltb 0 size && leb size (length items) then option_map at_id (last? items) else none

  unfoldable pub derive_next_after :
      Utf8 → Option Text → List A → Option ℕ → PageParamStyle → Option Text
  unfolding linked full_page
  derive_next_after utf8 link_header items requested_size style =
      elim (linked utf8 link_header style) [
        | some cursor ↦ some cursor
        | none ↦ full_page items requested_size
      ]

-- Two cursors are the same.
unfoldable pub same_cursor : Text → Option Text → Bool
unfolding same
same_cursor next none = false
same_cursor next (some after) = same next after

-- A page: its elements, and the cursor of the next one.
pub record ElementPage (A : Type 0) : Type 0 where
  pub items : List A
  pub next_after : Option Text

-- Whether the loop of `all_elements` goes on, and from which cursor.
unfoldable pub goes_on : Option Text → Option Text → Option Text
unfolding same_cursor
goes_on none after = none
goes_on (some next) after = if same_cursor next after then none else some next

-- `elements` with no size: the page of a response, which is its `Link` header and its elements.
unfoldable pub page_of :
    {A E : Type 0}
    → (A → Text)
    → Utf8
    → PageParamStyle
    → Result (Option Text × List A) E
    → Result (ElementPage A) E
unfolding derive_next_after
page_of at_id utf8 style (err e) = err e
page_of at_id utf8 style (ok (link, items)) =
    ok (record { items = items; next_after = derive_next_after at_id utf8 link items none style })

module _ {W A E : Type 0} (elements : Option Text → W → W × Result (ElementPage A) E) where
  -- The loop of `all_elements` for a number of pages; none if there are more.
  unfoldable pub pages_from : ℕ → Option Text → List A → W → W × Option (Result (List A) E)
  unfolding goes_on
  pages_from zero after out w = (w, none)
  pages_from (suc left) after out w =
      let (w', answer) = elements after w in
      elim answer [
        | err e ↦ (w', some (err e))
        | ok page ↦ elim (goes_on page.next_after after) [
          | none ↦ (w', some (ok (out ++ page.items)))
          | some next ↦ pages_from left (some next) (out ++ page.items) w'
        ]
      ]

  unfoldable pub all_elements : ℕ → W → W × Option (Result (List A) E)
  unfolding pages_from
  all_elements fuel w = pages_from fuel none [] w
