-- ===== src/Slackkit/Valid.antt =====
-- The messages that the checks of slackkit/slack.go accept.
use servekit.Prelude.{
  ℕ, suc, ◌≤◌, ◌≡◌, refl, ◌↔◌, Option, none, some, List, [], ◌∷◌, arith, length, All, Option-cases,
  inl, inr,
}
use servekit.Slackkit.Blocks.{
  header, divider, section, context, actions, image_block, other_block_type, BlockType, Text,
  Element, context_text, context_text_ptr, image, image_ptr, button, button_ptr, other_element,
  Block, Notification,
}
use servekit.Slackkit.Validate.{
  validate_accessory, validate_section, validate_header, validate_elements, validate_context,
  validate_actions, validate_image_block, validate_block_as, validate_block, validate,
  validate_fields,
}
use servekit.Slackkit.Checks.{
  Invalid, and_then, first_invalid, is_set, validate_text, both_types, validate_given,
  validate_section_accessory, validate_context_element, validate_action_element,
  max_context_elements, max_action_elements, at_field, at_element, at_block,
}
use servekit.Slackkit.Elements.{
  IsText, Needed, Given, IsText-iff, IsImage-iff, IsButton-iff, Needed-iff, Given-IsPlain_iff,
  Given-IsText_iff, and_then_iff,
}
use servekit.Slackkit.Shapes.{
  IsSection, IsNotification, IsAccessory, IsActionElement, IsBlockAs, IsContextElement, IsList,
  IsPicture,
}

pub first_invalid_iff :
    {A : Type 0} (check : A → Option Invalid) (P : A → Type 0)
    → ((x : A) → (check x ≡ none) ↔ P x)
    → (place : ℕ → Invalid → Invalid) (i : ℕ) (xs : List A)
    → (first_invalid check place i xs ≡ none) ↔ All P xs
unfolding first_invalid
first_invalid_iff check P each place i [] = (λ h. tt, λ v. refl)
first_invalid_iff check P each place i (x ∷ xs) =
    let rest = first_invalid_iff check P each place (suc i) xs in
    (
      λ h. elim (Option-cases (check x)) [
        | inl e ↦ ((each x).0 e, rest.0 (ground arith))
        | inr (a, e) ↦ absurd (ground arith)
      ],
      λ v. rw ((each x).1 v.0, first_invalid) (rest.1 v.1),
    )

IsAccessory-iff : (e : Element) → (validate_section_accessory e ≡ none) ↔ IsAccessory e
unfolding validate_section_accessory IsAccessory
IsAccessory-iff (context_text t) = (λ h. absurd cc, λ v. absurd v)
IsAccessory-iff (context_text_ptr t) = (λ h. absurd cc, λ v. absurd v)
IsAccessory-iff (image e) = IsImage-iff e
IsAccessory-iff (image_ptr none) = (λ h. absurd cc, λ v. absurd v)
IsAccessory-iff (image_ptr (some e)) = IsImage-iff e
IsAccessory-iff (button b) = IsButton-iff b
IsAccessory-iff (button_ptr none) = (λ h. absurd cc, λ v. absurd v)
IsAccessory-iff (button_ptr (some b)) = IsButton-iff b
IsAccessory-iff other_element = (λ h. absurd cc, λ v. absurd v)

Given-IsAccessory_iff : (o : Option Element) → (validate_accessory o ≡ none) ↔ Given IsAccessory o
unfolding validate_accessory Given
Given-IsAccessory_iff none = (λ h. tt, λ v. refl)
Given-IsAccessory_iff (some e) = IsAccessory-iff e

IsContextElement-iff :
    (o : Option Element) → (validate_context_element o ≡ none) ↔ Needed IsContextElement o
unfolding validate_context_element Needed IsContextElement
IsContextElement-iff none = (λ h. absurd cc, λ v. absurd v)
IsContextElement-iff (some (context_text t)) = IsText-iff t
IsContextElement-iff (some (context_text_ptr none)) = (λ h. absurd cc, λ v. absurd v)
IsContextElement-iff (some (context_text_ptr (some t))) = IsText-iff t
IsContextElement-iff (some (image e)) = IsImage-iff e
IsContextElement-iff (some (image_ptr none)) = (λ h. absurd cc, λ v. absurd v)
IsContextElement-iff (some (image_ptr (some e))) = IsImage-iff e
IsContextElement-iff (some (button b)) = (λ h. absurd cc, λ v. absurd v)
IsContextElement-iff (some (button_ptr b)) = (λ h. absurd cc, λ v. absurd v)
IsContextElement-iff (some other_element) = (λ h. absurd cc, λ v. absurd v)

IsActionElement-iff :
    (o : Option Element) → (validate_action_element o ≡ none) ↔ Needed IsActionElement o
unfolding validate_action_element Needed IsActionElement
IsActionElement-iff none = (λ h. absurd cc, λ v. absurd v)
IsActionElement-iff (some (context_text t)) = (λ h. absurd cc, λ v. absurd v)
IsActionElement-iff (some (context_text_ptr t)) = (λ h. absurd cc, λ v. absurd v)
IsActionElement-iff (some (image e)) = (λ h. absurd cc, λ v. absurd v)
IsActionElement-iff (some (image_ptr e)) = (λ h. absurd cc, λ v. absurd v)
IsActionElement-iff (some (button b)) = IsButton-iff b
IsActionElement-iff (some (button_ptr none)) = (λ h. absurd cc, λ v. absurd v)
IsActionElement-iff (some (button_ptr (some b))) = IsButton-iff b
IsActionElement-iff (some other_element) = (λ h. absurd cc, λ v. absurd v)

fields_iff :
    (fields : List Text)
    → (validate_fields fields ≡ none) ↔ ((length fields ≤ 10) × All IsText fields)
unfolding validate_fields
fields_iff fields =
    let each = first_invalid_iff (validate_text both_types) IsText IsText-iff at_field 0 fields in
    (λ h. (ground arith, each.0 (ground arith)), λ v. ground (arith, v.0, each.1 v.1))

IsSection-iff : (b : Block) → (validate_section b ≡ none) ↔ IsSection b
unfolding validate_section is_set
IsSection-iff b = (to, from)
  where
    texts : (validate_given both_types b.text ≡ none) ↔ Given IsText b.text
    texts = Given-IsText_iff b.text

    inner : Option Invalid
    inner = and_then (validate_fields b.fields) (validate_accessory b.accessory)

    parts :
        (and_then (validate_given both_types b.text) inner ≡ none)
        ↔ ((validate_given both_types b.text ≡ none) × (inner ≡ none))
    parts = and_then_iff (validate_given both_types b.text) inner

    inner_parts :
        (inner ≡ none)
        ↔ ((validate_fields b.fields ≡ none) × (validate_accessory b.accessory ≡ none))
    inner_parts = and_then_iff (validate_fields b.fields) (validate_accessory b.accessory)

    to : validate_section b ≡ none → IsSection b
    to h =
        let v = parts.0 (ground arith) in
        let w = inner_parts.0 v.1 in
        let fields = (fields_iff b.fields).0 w.0 in
        record {
          something = λ e. ground arith;
          main_text = texts.0 v.0;
          few_fields = fields.0;
          each_field = fields.1;
          beside = (Given-IsAccessory_iff b.accessory).0 w.1;
        }

    from : IsSection b → validate_section b ≡ none
    from v =
        let fields = (fields_iff b.fields).1 (v.few_fields, v.each_field) in
        let beside = (Given-IsAccessory_iff b.accessory).1 v.beside in
        let all_parts = parts.1 (texts.1 v.main_text, inner_parts.1 (fields, beside)) in
        elim (Option-cases b.text) [
          | inl e ↦ ground (arith, v.something e, all_parts)
          | inr (t, e) ↦ ground (arith, all_parts)
        ]

elements_iff :
    (most : ℕ) (check : Option Element → Option Invalid) (P : Element → Type 0)
    → ((o : Option Element) → (check o ≡ none) ↔ Needed P o)
    → (b : Block) → (validate_elements most check b.elements ≡ none) ↔ IsList most P b
unfolding validate_elements
elements_iff most check P each b =
    let all_fine = first_invalid_iff check (Needed P) each at_element 0 b.elements in
    (
      λ h. record {
        not_empty = ground arith;
        few = ground arith;
        each_element = all_fine.0 (ground arith);
      },
      λ v. ground (arith, v.not_empty, v.few, all_fine.1 v.each_element),
    )

image_block_iff : (b : Block) → (validate_image_block b ≡ none) ↔ IsPicture b
unfolding validate_image_block
image_block_iff b =
    let title = Given-IsPlain_iff b.title in
    (
      λ h. record {
        has_url = ground arith;
        has_alt = ground arith;
        caption = title.0 (ground arith);
      },
      λ v. ground (arith, v.has_url, v.has_alt, title.1 v.caption),
    )

IsBlockAs-iff : (k : BlockType) (b : Block) → (validate_block_as k b ≡ none) ↔ IsBlockAs k b
unfolding validate_block_as IsBlockAs validate_header validate_context validate_actions
IsBlockAs-iff header b = Needed-iff b.text
IsBlockAs-iff divider b = (λ h. tt, λ v. refl)
IsBlockAs-iff section b = IsSection-iff b
IsBlockAs-iff context b =
    elements_iff max_context_elements validate_context_element IsContextElement IsContextElement-iff
      b
IsBlockAs-iff actions b =
    elements_iff max_action_elements validate_action_element IsActionElement IsActionElement-iff b
IsBlockAs-iff image_block b = image_block_iff b
IsBlockAs-iff (other_block_type s) b = (λ h. absurd cc, λ v. absurd v)

pub block_iff : (b : Block) → (validate_block b ≡ none) ↔ IsBlockAs b.kind b
unfolding validate_block
block_iff b = IsBlockAs-iff b.kind b

-- A notification passes the checks exactly if it has at most 50 blocks and each of them is well
-- formed for its type: a header has a non-empty plain text; a section has a text or between one
-- and ten fields, all non-empty plain or markdown texts, and at most an image or a button beside
-- them; a context block has 1 to 10 texts and images; an actions block has 1 to 25 buttons; an
-- image block has a URL, an alternative text and at most a plain title; other types are refused.
pub IsNotification-iff : (n : Notification) → (validate n ≡ none) ↔ IsNotification n
unfolding validate
IsNotification-iff n =
    let P : Block → Type 0 = λ (b : Block). IsBlockAs b.kind b in
    let each = first_invalid_iff validate_block P block_iff at_block 0 n.blocks in
    (
      λ h. record { few_blocks = ground arith; each_block = each.0 (ground arith) },
      λ v. ground (arith, v.few_blocks, each.1 v.each_block),
    )
