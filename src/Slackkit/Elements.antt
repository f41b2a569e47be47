-- ===== src/Slackkit/Elements.antt =====
-- The texts and elements that the checks of slackkit/slack.go accept.
use servekit.Prelude.{
  ℕ, ◌≤◌, ◌≡◌, refl, ◌↔◌, true, false, Option, none, some, List, [], ◌∷◌, arith, length, ◌⊎◌, inl,
  inr,
}
use servekit.Slackkit.Blocks.{
  TextType, plain_text, markdown, other_text_type, ElementType, button_element, image_element_type,
  other_element_type, ButtonStyle, no_style, primary_button, danger_button, other_button_style,
  Text, ImageElement, Button,
}
use servekit.Slackkit.Checks.{
  Invalid, and_then, same_text_type, contains_text_type, is_set, validate_text, both_types,
  is_image_type, is_button_type, validate_image, validate_needed, validate_given,
  validate_button_style, validate_button,
}

-- Plain text has no `verbatim`, and neither kind has a style.
pub record IsPlain (t : Text) : Type 0 where
  pub plain : t.kind ≡ plain_text
  pub no_text_style : t.style ≡ none
  pub no_verbatim : t.verbatim ≡ none
  pub content : 1 ≤ length t.text

pub record IsMarkdown (t : Text) : Type 0 where
  pub marked : t.kind ≡ markdown
  pub no_text_style : t.style ≡ none
  pub no_emoji : t.emoji ≡ none
  pub content : 1 ≤ length t.text

unfoldable pub IsText : Text → Type 0
IsText t = IsPlain t ⊎ IsMarkdown t

TextType-cases :
    (k : TextType) → (k ≡ plain_text) ⊎ (k ≡ markdown) ⊎ ((s : List ℕ) × (k ≡ other_text_type s))
TextType-cases plain_text = inl refl
TextType-cases markdown = inr (inl refl)
TextType-cases (other_text_type s) = inr (inr (s, refl))

unset_of : {A : Type 0} (o : Option A) → is_set o ≡ false → o ≡ none
unfolding is_set
unset_of none h = refl
unset_of (some a) h = absurd cc

IsPlain-iff : (t : Text) → (validate_text (plain_text ∷ []) t ≡ none) ↔ IsPlain t
unfolding validate_text contains_text_type same_text_type is_set
IsPlain-iff t = (
  λ h. elim (TextType-cases t.kind) [
    | inl k ↦ record {
      plain = k;
      no_text_style = unset_of t.style (ground arith);
      no_verbatim = unset_of t.verbatim (ground arith);
      content = ground arith;
    }
    | inr (inl k) ↦ absurd (ground arith)
    | inr (inr (s, k)) ↦ absurd (ground arith)
  ],
  λ v. ground (arith, v.plain, v.no_text_style, v.no_verbatim, v.content),
)

pub IsText-iff : (t : Text) → (validate_text both_types t ≡ none) ↔ IsText t
unfolding validate_text contains_text_type same_text_type is_set IsText
IsText-iff t = (to, from)
  where
    to : validate_text both_types t ≡ none → IsText t
    to h = elim (TextType-cases t.kind) [
      | inl k ↦ inl (record {
        plain = k;
        no_text_style = unset_of t.style (ground arith);
        no_verbatim = unset_of t.verbatim (ground arith);
        content = ground arith;
      })
      | inr (inl k) ↦ inr (record {
        marked = k;
        no_text_style = unset_of t.style (ground arith);
        no_emoji = unset_of t.emoji (ground arith);
        content = ground arith;
      })
      | inr (inr (s, k)) ↦ absurd (ground arith)
    ]

    from : IsText t → validate_text both_types t ≡ none
    from (inl v) = ground (arith, v.plain, v.no_text_style, v.no_verbatim, v.content)
    from (inr v) = ground (arith, v.marked, v.no_text_style, v.no_emoji, v.content)

pub record IsImage (e : ImageElement) : Type 0 where
  pub image_kind : e.kind ≡ image_element_type
  pub has_url : 1 ≤ length e.image_url
  pub has_alt : 1 ≤ length e.alt_text

image_type_of : (k : ElementType) → is_image_type k ≡ true → k ≡ image_element_type
unfolding is_image_type
image_type_of image_element_type h = refl
image_type_of button_element h = absurd cc
image_type_of (other_element_type s) h = absurd cc

button_type_of : (k : ElementType) → is_button_type k ≡ true → k ≡ button_element
unfolding is_button_type
button_type_of button_element h = refl
button_type_of image_element_type h = absurd cc
button_type_of (other_element_type s) h = absurd cc

pub IsImage-iff : (e : ImageElement) → (validate_image e ≡ none) ↔ IsImage e
unfolding validate_image is_image_type
IsImage-iff e = (
  λ h. record {
    image_kind = image_type_of e.kind (ground arith);
    has_url = ground arith;
    has_alt = ground arith;
  },
  λ v. ground (arith, v.image_kind, v.has_url, v.has_alt),
)

unfoldable pub IsStyle : ButtonStyle → Type 0
IsStyle s = (s ≡ no_style) ⊎ (s ≡ primary_button) ⊎ (s ≡ danger_button)

-- There is something, and it has the property.
unfoldable pub Needed : {A : Type 0} → (A → Type 0) → Option A → Type 0
Needed P none = ⊥
Needed P (some a) = P a

-- What is there has the property.
unfoldable pub Given : {A : Type 0} → (A → Type 0) → Option A → Type 0
Given P none = Unit
Given P (some a) = P a

pub record IsButton (b : Button) : Type 0 where
  pub button_kind : b.kind ≡ button_element
  pub label : Needed IsPlain b.text
  pub known_style : IsStyle b.style

IsStyle-iff : (s : ButtonStyle) → (validate_button_style s ≡ none) ↔ IsStyle s
unfolding validate_button_style IsStyle
IsStyle-iff no_style = (λ h. inl refl, λ v. refl)
IsStyle-iff primary_button = (λ h. inr (inl refl), λ v. refl)
IsStyle-iff danger_button = (λ h. inr (inr refl), λ v. refl)
IsStyle-iff (other_button_style s) = (
  λ h. absurd cc,
  λ v. elim v [ inl e ↦ absurd cc | inr (inl e) ↦ absurd cc | inr (inr e) ↦ absurd cc ],
)

pub Needed-iff : (o : Option Text) → (validate_needed (plain_text ∷ []) o ≡ none) ↔ Needed IsPlain o
unfolding validate_needed Needed
Needed-iff none = (λ h. absurd cc, λ v. absurd v)
Needed-iff (some t) = IsPlain-iff t

pub Given-IsPlain_iff :
    (o : Option Text) → (validate_given (plain_text ∷ []) o ≡ none) ↔ Given IsPlain o
unfolding validate_given Given
Given-IsPlain_iff none = (λ h. tt, λ v. refl)
Given-IsPlain_iff (some t) = IsPlain-iff t

pub Given-IsText_iff : (o : Option Text) → (validate_given both_types o ≡ none) ↔ Given IsText o
unfolding validate_given Given
Given-IsText_iff none = (λ h. tt, λ v. refl)
Given-IsText_iff (some t) = IsText-iff t

pub and_then_iff : (a b : Option Invalid) → (and_then a b ≡ none) ↔ ((a ≡ none) × (b ≡ none))
unfolding and_then
and_then_iff none b = (λ h. (refl, h), λ v. v.1)
and_then_iff (some e) b = (λ h. absurd cc, λ v. absurd cc)

pub IsButton-iff : (b : Button) → (validate_button b ≡ none) ↔ IsButton b
unfolding validate_button is_button_type
IsButton-iff b = (to, from)
  where
    to : validate_button b ≡ none → IsButton b
    to h =
        let v =
          (and_then_iff (validate_needed (plain_text ∷ []) b.text)
              (validate_button_style b.style)).0
            (ground arith) in
        record {
          button_kind = button_type_of b.kind (ground arith);
          label = (Needed-iff b.text).0 v.0;
          known_style = (IsStyle-iff b.style).0 v.1;
        }

    from : IsButton b → validate_button b ≡ none
    from v =
        let fine = (Needed-iff b.text).1 v.label in
        let known = (IsStyle-iff b.style).1 v.known_style in
        let texts = validate_needed (plain_text ∷ []) b.text in
        let both = (and_then_iff texts (validate_button_style b.style)).1 (fine, known) in
        ground (arith, v.button_kind, both)
