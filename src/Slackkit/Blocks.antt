-- ===== src/Slackkit/Blocks.antt =====
-- slackkit/slack.go: text objects, elements, blocks and notifications. A pointer is an option, and a value of type `any` is known by its dynamic type.
use servekit.Prelude.{Bool, Option, List, Bytes}

-- The constants of `TextType`, and any other string.
pub data TextType : Type 0 where
  plain_text : TextType
  markdown : TextType
  other_text_type : Bytes → TextType

pub data ElementType : Type 0 where
  button_element : ElementType
  image_element_type : ElementType
  other_element_type : Bytes → ElementType

-- The empty string is no style.
pub data ButtonStyle : Type 0 where
  no_style : ButtonStyle
  primary_button : ButtonStyle
  danger_button : ButtonStyle
  other_button_style : Bytes → ButtonStyle

pub data BlockType : Type 0 where
  header : BlockType
  divider : BlockType
  section : BlockType
  context : BlockType
  actions : BlockType
  image_block : BlockType
  other_block_type : Bytes → BlockType

pub record Style : Type 0 where
  pub bold : Option Bool
  pub italic : Option Bool
  pub strike : Option Bool

pub record Text : Type 0 where
  pub kind : TextType
  pub text : Bytes
  pub emoji : Option Bool
  pub verbatim : Option Bool
  pub style : Option Style

pub record ImageElement : Type 0 where
  pub kind : ElementType
  pub image_url : Bytes
  pub alt_text : Bytes

pub record Button : Type 0 where
  pub kind : ElementType
  pub text : Option Text
  pub action_id : Bytes
  pub url : Bytes
  pub value : Bytes
  pub style : ButtonStyle
  pub accessibility_label : Bytes

-- An accessory or an element that is not nil.
pub data Element : Type 0 where
  context_text : Text → Element
  context_text_ptr : Option Text → Element
  image : ImageElement → Element
  image_ptr : Option ImageElement → Element
  button : Button → Element
  button_ptr : Option Button → Element
  other_element : Element

-- An element of the list may be a nil interface.
pub record Block : Type 0 where
  pub kind : BlockType
  pub block_id : Bytes
  pub text : Option Text
  pub fields : List Text
  pub accessory : Option Element
  pub elements : List (Option Element)
  pub image_url : Bytes
  pub alt_text : Bytes
  pub title : Option Text
  pub expand : Option Bool

pub record Notification : Type 0 where
  pub text : Bytes
  pub blocks : List Block
  pub thread_ts : Bytes
