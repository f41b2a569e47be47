-- ===== src/Slackkit/Shapes.antt =====
-- What a well-formed block of slackkit/slack.go is.
use servekit.Prelude.{ℕ, ◌≤◌, ◌≡◌, none, some, length, All}
use servekit.Slackkit.Blocks.{
  header, divider, section, context, actions, image_block, other_block_type, BlockType, Element,
  context_text, context_text_ptr, image, image_ptr, button, button_ptr, Block, Notification,
}
use servekit.Slackkit.Elements.{IsPlain, IsText, IsImage, IsButton, Needed, Given}

unfoldable pub IsAccessory : Element → Type 0
IsAccessory (image e) = IsImage e
IsAccessory (image_ptr (some e)) = IsImage e
IsAccessory (button b) = IsButton b
IsAccessory (button_ptr (some b)) = IsButton b
IsAccessory _ = ⊥

unfoldable pub IsContextElement : Element → Type 0
IsContextElement (context_text t) = IsText t
IsContextElement (context_text_ptr (some t)) = IsText t
IsContextElement (image e) = IsImage e
IsContextElement (image_ptr (some e)) = IsImage e
IsContextElement _ = ⊥

unfoldable pub IsActionElement : Element → Type 0
IsActionElement (button b) = IsButton b
IsActionElement (button_ptr (some b)) = IsButton b
IsActionElement _ = ⊥

pub record IsSection (b : Block) : Type 0 where
  pub something : b.text ≡ none → 1 ≤ length b.fields
  pub main_text : Given IsText b.text
  pub few_fields : length b.fields ≤ 10
  pub each_field : All IsText b.fields
  pub beside : Given IsAccessory b.accessory

pub record IsList (most : ℕ) (P : Element → Type 0) (b : Block) : Type 0 where
  pub not_empty : 1 ≤ length b.elements
  pub few : length b.elements ≤ most
  pub each_element : All (Needed P) b.elements

pub record IsPicture (b : Block) : Type 0 where
  pub has_url : 1 ≤ length b.image_url
  pub has_alt : 1 ≤ length b.alt_text
  pub caption : Given IsPlain b.title

unfoldable pub IsBlockAs : BlockType → Block → Type 0
IsBlockAs header b = Needed IsPlain b.text
IsBlockAs divider b = Unit
IsBlockAs section b = IsSection b
IsBlockAs context b = IsList 10 IsContextElement b
IsBlockAs actions b = IsList 25 IsActionElement b
IsBlockAs image_block b = IsPicture b
IsBlockAs (other_block_type s) b = ⊥

pub record IsNotification (n : Notification) : Type 0 where
  pub few_blocks : length n.blocks ≤ 50
  pub each_block : All (λ (b : Block). IsBlockAs b.kind b) n.blocks
