-- ===== src/Slackkit/Validate.antt =====
-- slackkit/slack.go: the checks of blocks and of notifications, and the functions that make messages.
use servekit.Prelude.{
  ℕ, not, ◌&&◌, Option, none, some, List, [], ◌∷◌, ltb, ◌==◌, if◌then◌else◌, length, is_empty,
  Bytes,
}
use servekit.Slackkit.Blocks.{
  plain_text, header, divider, section, context, actions, image_block, other_block_type, BlockType,
  Text, Element, Block, Notification,
}
use servekit.Slackkit.Checks.{
  Invalid, and_then, at_block, at_element, at_field, both_types, first_invalid, invalid_block_type,
  is_set, max_action_elements, max_context_elements, max_message_blocks, max_section_fields,
  nil_alt_text, nil_elements, nil_image_url, nil_text, too_many_blocks, too_many_elements,
  too_many_fields, validate_action_element, validate_context_element, validate_given,
  validate_needed, validate_section_accessory, validate_text,
}

unfoldable pub validate_accessory : Option Element → Option Invalid
unfolding validate_section_accessory
validate_accessory none = none
validate_accessory (some e) = validate_section_accessory e

unfoldable pub validate_fields : List Text → Option Invalid
unfolding first_invalid
validate_fields fields =
    if ltb max_section_fields (length fields)
    then some too_many_fields
    else first_invalid (validate_text both_types) at_field 0 fields

unfoldable pub validate_section : Block → Option Invalid
unfolding is_set validate_given and_then validate_fields validate_accessory
validate_section b =
    if not (is_set b.text) && (length b.fields == 0)
    then some nil_text
    else and_then (validate_given both_types b.text)
        (and_then (validate_fields b.fields) (validate_accessory b.accessory))

unfoldable pub validate_header : Block → Option Invalid
unfolding validate_needed
validate_header b = validate_needed (plain_text ∷ []) b.text

-- The checks of `validateContext` and of `validateActions`.
unfoldable pub validate_elements :
    ℕ → (Option Element → Option Invalid) → List (Option Element) → Option Invalid
unfolding first_invalid
validate_elements most check elements =
    if length elements == 0
    then some nil_elements
    else if ltb most (length elements)
    then some too_many_elements
    else first_invalid check at_element 0 elements

unfoldable pub validate_context : Block → Option Invalid
unfolding validate_elements
validate_context b = validate_elements max_context_elements validate_context_element b.elements

unfoldable pub validate_actions : Block → Option Invalid
unfolding validate_elements
validate_actions b = validate_elements max_action_elements validate_action_element b.elements

unfoldable pub validate_image_block : Block → Option Invalid
unfolding validate_given
validate_image_block b =
    if is_empty b.image_url
    then some nil_image_url
    else if is_empty b.alt_text
    then some nil_alt_text
    else validate_given (plain_text ∷ []) b.title

unfoldable pub validate_block_as : BlockType → Block → Option Invalid
unfolding validate_header validate_section validate_context validate_actions validate_image_block
validate_block_as header b = validate_header b
validate_block_as divider b = none
validate_block_as section b = validate_section b
validate_block_as context b = validate_context b
validate_block_as actions b = validate_actions b
validate_block_as image_block b = validate_image_block b
validate_block_as (other_block_type s) b = some invalid_block_type

unfoldable pub validate_block : Block → Option Invalid
unfolding validate_block_as
validate_block b = validate_block_as b.kind b

unfoldable pub validate : Notification → Option Invalid
unfolding first_invalid validate_block
validate n =
    if ltb max_message_blocks (length n.blocks)
    then some too_many_blocks
    else first_invalid validate_block at_block 0 n.blocks

pub data Made : Type 0 where
  made : Notification → Made
  not_made : Invalid → Made

unfoldable pub made_unless : Option Invalid → Notification → Made
made_unless none n = made n
made_unless (some e) n = not_made e

unfoldable pub new_notification : List Block → Made
unfolding made_unless validate
new_notification blocks =
    let n : Notification = record { text = []; blocks = blocks; thread_ts = [] } in
    made_unless (validate n) n

unfoldable pub new_message : Bytes → List Block → Made
unfolding made_unless validate
new_message text blocks =
    let n : Notification = record { text = text; blocks = blocks; thread_ts = [] } in
    if is_empty text then not_made nil_text else made_unless (validate n) n
