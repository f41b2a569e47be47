-- ===== src/Slackkit/Builders.antt =====
-- slackkit/slack.go: the functions that build texts, elements and blocks, and their options.
use servekit.Prelude.{Bool, true, Option, none, some, List, [], ◌∷◌, Bytes}
use servekit.Slackkit.Blocks.{
  plain_text, markdown, button_element, image_element_type, ButtonStyle, no_style, header, divider,
  section, context, actions, image_block, BlockType, Text, ImageElement, Button, Element,
  context_text, Block,
}

-- The options of blocks, by their arguments; a nil accessory is `none`.
pub data BlockOption : Type 0 where
  with_block_id : Bytes → BlockOption
  with_accessory : Option Element → BlockOption
  with_image_title : Bytes → Bool → BlockOption
  with_expand : Bool → BlockOption

unfoldable pub new_plain_text : Bytes → Bool → Text
new_plain_text text emoji = record {
  kind = plain_text;
  text = text;
  emoji = some emoji;
  verbatim = none;
  style = none;
}

unfoldable pub with_verbatim : Bool → Text → Text
with_verbatim verbatim t = record t { verbatim = some verbatim }

unfoldable pub apply_text_options : List (Text → Text) → Text → Text
apply_text_options [] t = t
apply_text_options (option ∷ options) t = apply_text_options options (option t)

unfoldable pub new_markdown_text : Bytes → List (Text → Text) → Text
unfolding apply_text_options
new_markdown_text text options =
    apply_text_options options
      (record { kind = markdown; text = text; emoji = none; verbatim = none; style = none })

unfoldable pub apply_block_option : BlockOption → Block → Block
unfolding new_plain_text
apply_block_option (with_block_id id) b = record b { block_id = id }
apply_block_option (with_accessory a) b = record b { accessory = a }
apply_block_option (with_image_title title emoji) b = record b {
  title = some (new_plain_text title emoji);
}
apply_block_option (with_expand expand) b = record b { expand = some expand }

unfoldable pub apply_block_options : List BlockOption → Block → Block
unfolding apply_block_option
apply_block_options [] b = b
apply_block_options (option ∷ options) b = apply_block_options options (apply_block_option option b)

-- Block{Type: kind}
unfoldable pub empty_block : BlockType → Block
empty_block kind = record {
  kind = kind;
  block_id = [];
  text = none;
  fields = [];
  accessory = none;
  elements = [];
  image_url = [];
  alt_text = [];
  title = none;
  expand = none;
}

unfoldable pub new_header : Bytes → Bool → List BlockOption → Block
unfolding empty_block new_plain_text apply_block_options
new_header text emoji options =
    apply_block_options options
      (record (empty_block header) { text = some (new_plain_text text emoji) })

unfoldable pub new_divider : List BlockOption → Block
unfolding empty_block apply_block_options
new_divider options = apply_block_options options (empty_block divider)

unfoldable pub new_section : Bytes → Bool → List BlockOption → Block
unfolding empty_block new_plain_text apply_block_options
new_section text emoji options =
    apply_block_options options
      (record (empty_block section) { text = some (new_plain_text text emoji) })

unfoldable pub new_markdown_section : Bytes → List BlockOption → Block
unfolding empty_block new_markdown_text apply_block_options
new_markdown_section text options =
    apply_block_options options
      (record (empty_block section) { text = some (new_markdown_text text []) })

unfoldable pub new_section_fields : List Text → List BlockOption → Block
unfolding empty_block apply_block_options
new_section_fields fields options =
    apply_block_options options (record (empty_block section) { fields = fields })

unfoldable pub new_image_block : Bytes → Bytes → List BlockOption → Block
unfolding empty_block apply_block_options
new_image_block url alt options =
    apply_block_options options
      (record (empty_block image_block) { image_url = url; alt_text = alt })

unfoldable pub new_image_element : Bytes → Bytes → ImageElement
new_image_element url alt = record { kind = image_element_type; image_url = url; alt_text = alt }

unfoldable pub new_context_image : Bytes → Bytes → ImageElement
unfolding new_image_element
new_context_image url alt = new_image_element url alt

unfoldable pub new_context_text : Text → Element
new_context_text text = context_text text

-- The loop that appends the elements one by one copies the list.
unfoldable pub new_context : List (Option Element) → Block
unfolding empty_block
new_context elements = record (empty_block context) { elements = elements }

unfoldable pub new_actions : List (Option Element) → Block
unfolding empty_block
new_actions elements = record (empty_block actions) { elements = elements }

pub data ButtonOption : Type 0 where
  with_button_style : ButtonStyle → ButtonOption
  with_button_url : Bytes → ButtonOption
  with_button_value : Bytes → ButtonOption
  with_button_accessibility_label : Bytes → ButtonOption

unfoldable pub apply_button_option : ButtonOption → Button → Button
apply_button_option (with_button_style style) b = record b { style = style }
apply_button_option (with_button_url url) b = record b { url = url }
apply_button_option (with_button_value value) b = record b { value = value }
apply_button_option (with_button_accessibility_label label) b = record b {
  accessibility_label = label;
}

unfoldable pub apply_button_options : List ButtonOption → Button → Button
unfolding apply_button_option
apply_button_options [] b = b
apply_button_options (option ∷ options) b =
    apply_button_options options (apply_button_option option b)

unfoldable pub new_button : Bytes → Bytes → List ButtonOption → Button
unfolding new_plain_text apply_button_options
new_button text action_id options = apply_button_options options (record {
  kind = button_element;
  text = some (new_plain_text text true);
  action_id = action_id;
  url = [];
  value = [];
  style = no_style;
  accessibility_label = [];
})
