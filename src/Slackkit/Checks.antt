-- ===== src/Slackkit/Checks.antt =====
-- slackkit/slack.go: the checks of texts and elements. No error is `none`.
use servekit.Prelude.{
  ℕ, suc, Bool, true, false, not, ◌&&◌, ◌||◌, Option, none, some, List, [], ◌∷◌, if◌then◌else◌,
  is_empty,
}
use servekit.Slackkit.Blocks.{
  TextType, plain_text, markdown, ElementType, button_element, image_element_type, ButtonStyle,
  other_button_style, Text, ImageElement, Button, Element, context_text, context_text_ptr, image,
  image_ptr, button, button_ptr,
}

abbrev pub max_message_blocks : ℕ
max_message_blocks = 50

abbrev pub max_section_fields : ℕ
max_section_fields = 10

abbrev pub max_context_elements : ℕ
max_context_elements = 10

abbrev pub max_action_elements : ℕ
max_action_elements = 25

pub data Invalid : Type 0 where
  nil_text : Invalid
  invalid_block_type : Invalid
  invalid_text_type : Invalid
  invalid_text_style : Invalid
  invalid_text_emoji : Invalid
  invalid_text_verbatim : Invalid
  too_many_blocks : Invalid
  too_many_fields : Invalid
  nil_elements : Invalid
  too_many_elements : Invalid
  invalid_element_type : Invalid
  invalid_button_style : Invalid
  nil_image_url : Invalid
  nil_alt_text : Invalid
  -- "field %d is invalid: %w", and so on
  at_field : ℕ → Invalid → Invalid
  at_element : ℕ → Invalid → Invalid
  at_block : ℕ → Invalid → Invalid

-- The first check that fails.
unfoldable pub and_then : Option Invalid → Option Invalid → Option Invalid
and_then none rest = rest
and_then (some e) rest = some e

-- The first item that is not valid, from the i-th on, with its place.
unfoldable pub first_invalid :
    {A : Type 0} → (A → Option Invalid) → (ℕ → Invalid → Invalid) → ℕ → List A → Option Invalid
first_invalid check place i [] = none
first_invalid check place i (x ∷ xs) = elim (check x) [
  | none ↦ first_invalid check place (suc i) xs
  | some e ↦ some (place i e)
]

unfoldable pub same_text_type : TextType → TextType → Bool
same_text_type plain_text plain_text = true
same_text_type markdown markdown = true
same_text_type _ _ = false

unfoldable pub contains_text_type : List TextType → TextType → Bool
unfolding same_text_type
contains_text_type [] t = false
contains_text_type (s ∷ types) t = same_text_type s t || contains_text_type types t

unfoldable pub is_set : {A : Type 0} → Option A → Bool
is_set none = false
is_set (some a) = true

-- t.validate(allowed...) for a text that is there
unfoldable pub validate_text : List TextType → Text → Option Invalid
unfolding is_set contains_text_type same_text_type
validate_text allowed t =
    if is_set t.style
    then some invalid_text_style
    else if not (contains_text_type allowed t.kind)
    then some invalid_text_type
    else if same_text_type t.kind markdown && is_set t.emoji
    then some invalid_text_emoji
    else if same_text_type t.kind plain_text && is_set t.verbatim
    then some invalid_text_verbatim
    else if is_empty t.text
    then some nil_text
    else none

abbrev pub both_types : List TextType
both_types = plain_text ∷ markdown ∷ []

unfoldable pub is_image_type : ElementType → Bool
is_image_type image_element_type = true
is_image_type _ = false

unfoldable pub is_button_type : ElementType → Bool
is_button_type button_element = true
is_button_type _ = false

unfoldable pub validate_image : ImageElement → Option Invalid
unfolding is_image_type
validate_image e =
    if not (is_image_type e.kind)
    then some invalid_element_type
    else if is_empty e.image_url
    then some nil_image_url
    else if is_empty e.alt_text
    then some nil_alt_text
    else none

-- A text that has to be there.
unfoldable pub validate_needed : List TextType → Option Text → Option Invalid
unfolding validate_text
validate_needed allowed none = some nil_text
validate_needed allowed (some t) = validate_text allowed t

-- A text that is checked if it is there.
unfoldable pub validate_given : List TextType → Option Text → Option Invalid
unfolding validate_text
validate_given allowed none = none
validate_given allowed (some t) = validate_text allowed t

unfoldable pub validate_button_style : ButtonStyle → Option Invalid
validate_button_style (other_button_style s) = some invalid_button_style
validate_button_style _ = none

unfoldable pub validate_button : Button → Option Invalid
unfolding is_button_type and_then validate_needed validate_button_style
validate_button b =
    if not (is_button_type b.kind)
    then some invalid_element_type
    else and_then (validate_needed (plain_text ∷ []) b.text) (validate_button_style b.style)

unfoldable pub validate_section_accessory : Element → Option Invalid
unfolding validate_image validate_button
validate_section_accessory (image e) = validate_image e
validate_section_accessory (image_ptr (some e)) = validate_image e
validate_section_accessory (button b) = validate_button b
validate_section_accessory (button_ptr (some b)) = validate_button b
validate_section_accessory _ = some invalid_element_type

unfoldable pub validate_context_element : Option Element → Option Invalid
unfolding validate_text validate_image
validate_context_element (some (context_text t)) = validate_text both_types t
validate_context_element (some (context_text_ptr (some t))) = validate_text both_types t
validate_context_element (some (image e)) = validate_image e
validate_context_element (some (image_ptr (some e))) = validate_image e
validate_context_element _ = some invalid_element_type

unfoldable pub validate_action_element : Option Element → Option Invalid
unfolding validate_button
validate_action_element (some (button b)) = validate_button b
validate_action_element (some (button_ptr (some b))) = validate_button b
validate_action_element _ = some invalid_element_type
