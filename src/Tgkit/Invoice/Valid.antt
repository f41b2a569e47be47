-- ===== src/Tgkit/Invoice/Valid.antt =====
-- The invoices that `validateInvoice` of tgkit/payments.go accepts.
use servekit.Prelude.{
  ℕ, ◌≤◌, ◌<◌, ◌≡◌, refl, ◌↔◌, true, false, Option, none, some, List, [], ◌∷◌, arith, ℤ, pos, ◌+ℤ◌,
  ◌≤ℤ◌, ◌<ℤ◌, wrap64, length, is_empty, All, all, Bytes, bytes_eq_sound, bytes_eq_refl, Bool-cases,
  inl, inr, subst,
}
use servekit.GoText.{runes, rune_count, is_blank, in_range, ascii_of_runes, runes_of_ascii}
use servekit.Tgkit.Invoice.{
  LabeledPrice, InvoiceFields, InvoiceKind, invoice_one_time, invoice_subscription, stars_currency,
  period_seconds, max_stars_subscription_price, is_uppercase_currency_code, is_stars,
  validate_invoice_text, validate_invoice_currency, add_prices, check_total,
  validate_invoice_prices, tips_increase, validate_invoice_tips, check_first_price,
  validate_invoice_subscription, eq_ℤ,
}

-- Three ASCII capitals.
pub record IsCurrencyCode (currency : Bytes) : Type 0 where
  pub three : length currency ≡ 3
  pub capitals : All (λ c. (b'A' ≤ c) × (c ≤ b'Z')) currency

all_capitals→ :
    (s : List ℕ) → all (λ c. in_range b'A' b'Z' c) s ≡ true → All (λ c. (b'A' ≤ c) × (c ≤ b'Z')) s
unfolding in_range
all_capitals→ [] h = tt
all_capitals→ (c ∷ s) h = ground (arith, all_capitals→ s)

all_capitals← :
    (s : List ℕ) → All (λ c. (b'A' ≤ c) × (c ≤ b'Z')) s → all (λ c. in_range b'A' b'Z' c) s ≡ true
unfolding in_range
all_capitals← [] h = refl
all_capitals← (c ∷ s) h = ground (arith, h.0, all_capitals← s h.1)

capitals_ascii : (s : List ℕ) → All (λ c. (b'A' ≤ c) × (c ≤ b'Z')) s → All (λ c. c < 0x80) s
capitals_ascii [] h = tt
capitals_ascii (c ∷ s) h = (omega arith, capitals_ascii s h.1)

-- A currency passes `isUppercaseCurrencyCode` exactly if it is three bytes from A to Z.
IsCurrencyCode-iff :
    (currency : Bytes) → (is_uppercase_currency_code currency ≡ true) ↔ IsCurrencyCode currency
unfolding is_uppercase_currency_code
IsCurrencyCode-iff currency = (to, from)
  where
    to : is_uppercase_currency_code currency ≡ true → IsCurrencyCode currency
    to h =
        let caps = all_capitals→ (runes currency) (ground arith) in
        let same = ascii_of_runes currency (capitals_ascii (runes currency) caps) in
        record {
          three = ground arith;
          capitals = subst (All (λ c. (b'A' ≤ c) × (c ≤ b'Z'))) same caps;
        }

    from : IsCurrencyCode currency → is_uppercase_currency_code currency ≡ true
    from v =
        let same = runes_of_ascii currency (capitals_ascii currency v.capitals) in
        rw same (ground (arith, all_capitals← currency v.capitals, v.three))

pub is_stars_iff :
    (invoice : InvoiceFields) → (is_stars invoice ≡ true) ↔ (invoice.currency ≡ stars_currency)
unfolding is_stars
is_stars_iff invoice =
    (bytes_eq_sound invoice.currency stars_currency, λ h. rw h (bytes_eq_refl stars_currency))

-- Titles and descriptions have a character that is no white space and keep the limits, counted in
-- runes; the payload's limit is counted in bytes.
pub record IsValidText (invoice : InvoiceFields) : Type 0 where
  pub title_fits : rune_count invoice.title ≤ 32
  pub title_content : is_blank invoice.title ≡ false
  pub description_fits : rune_count invoice.description ≤ 255
  pub description_content : is_blank invoice.description ≡ false
  pub payload_content : 1 ≤ length invoice.payload
  pub payload_fits : length invoice.payload ≤ 128

pub text_iff :
    (invoice : InvoiceFields) → (validate_invoice_text invoice ≡ none) ↔ IsValidText invoice
unfolding validate_invoice_text
text_iff invoice = (λ h. ground arith, λ v. ground arith)

-- Stars need no payment provider, and every other currency does.
pub record IsValidCurrency (invoice : InvoiceFields) : Type 0 where
  pub code : IsCurrencyCode invoice.currency
  pub stars_token : is_stars invoice ≡ true → is_empty invoice.provider_token ≡ true
  pub other_token : is_stars invoice ≡ false → is_blank invoice.provider_token ≡ false

pub currency_iff :
    (invoice : InvoiceFields) → (validate_invoice_currency invoice ≡ none) ↔ IsValidCurrency invoice
unfolding validate_invoice_currency
currency_iff invoice = (
  λ h. record {
    code = (IsCurrencyCode-iff invoice.currency).0 (ground arith);
    stars_token = λ s. ground arith;
    other_token = λ s. ground arith;
  },
  λ v. ground (arith, (IsCurrencyCode-iff invoice.currency).1 v.code, v.stars_token, v.other_token),
)

-- The int64 total of the amounts.
abbrev pub total_from : ℤ → List LabeledPrice → ℤ
total_from total [] = total
total_from total (price ∷ prices) = total_from (wrap64 (total +ℤ price.amount)) prices

pub add_prices_labelled :
    (total : ℤ) (prices : List LabeledPrice)
    → All (λ (price : LabeledPrice). is_blank price.label ≡ false) prices
    → add_prices total prices ≡ some (total_from total prices)
unfolding add_prices
add_prices_labelled total [] h = refl
add_prices_labelled total (price ∷ prices) h =
    rw h.0 (add_prices_labelled (wrap64 (total +ℤ price.amount)) prices h.1)

pub labelled_of_add_prices :
    (total : ℤ) (prices : List LabeledPrice) {sum : ℤ}
    → add_prices total prices ≡ some sum
    → All (λ (price : LabeledPrice). is_blank price.label ≡ false) prices
unfolding add_prices
labelled_of_add_prices total [] h = tt
labelled_of_add_prices total (price ∷ prices) {sum} h = elim (Bool-cases (is_blank price.label)) [
  | inl e ↦ absurd (ground arith)
  | inr e ↦
      (e, labelled_of_add_prices (wrap64 (total +ℤ price.amount)) prices {sum = sum} (ground arith))
]

pub record IsValidPrices (invoice : InvoiceFields) : Type 0 where
  pub some_price : 1 ≤ length invoice.prices
  pub stars_one : is_stars invoice ≡ true → length invoice.prices ≡ 1
  pub labelled : All (λ (price : LabeledPrice). is_blank price.label ≡ false) invoice.prices
  pub positive : pos 0 <ℤ total_from (pos 0) invoice.prices

check_total-some :
    (o : Option ℤ) → check_total o ≡ none → (sum : ℤ) × (o ≡ some sum) × (pos 0 <ℤ sum)
unfolding check_total
check_total-some none h = absurd (ground arith)
check_total-some (some sum) h = (sum, refl, ground arith)

total_of_check :
    (prices : List LabeledPrice)
    → check_total (add_prices (pos 0) prices) ≡ none
    → All (λ (price : LabeledPrice). is_blank price.label ≡ false) prices
      × (pos 0 <ℤ total_from (pos 0) prices)
total_of_check prices h =
    let (sum, e, positive) = check_total-some (add_prices (pos 0) prices) h in
    let labelled = labelled_of_add_prices (pos 0) prices e in
    (
      labelled,
      let same : sum ≡ total_from (pos 0) prices =
            cc (add_prices_labelled (pos 0) prices labelled) in
          subst (λ o. pos 0 <ℤ o) same positive,
    )

check_of_total :
    (prices : List LabeledPrice)
    → All (λ (price : LabeledPrice). is_blank price.label ≡ false) prices
    → pos 0 <ℤ total_from (pos 0) prices
    → check_total (add_prices (pos 0) prices) ≡ none
unfolding check_total
check_of_total prices labelled positive =
    rw (add_prices_labelled (pos 0) prices labelled) (ground arith)

pub prices_iff :
    (invoice : InvoiceFields) → (validate_invoice_prices invoice ≡ none) ↔ IsValidPrices invoice
unfolding validate_invoice_prices
prices_iff invoice = (
  λ h.
      let checked : check_total (add_prices (pos 0) invoice.prices) ≡ none = ground arith in
      let (labelled, positive) = total_of_check invoice.prices checked in
      record {
        some_price = ground arith;
        stars_one = λ s. ground arith;
        labelled = labelled;
        positive = positive;
      },
  λ v.
      ground
        (arith, v.some_price, v.stars_one, check_of_total invoice.prices v.labelled v.positive),
)

-- Each tip is above the one before it, and the first above `previous`.
abbrev pub Increasing : ℤ → List ℤ → Type 0
Increasing previous [] = Unit
Increasing previous (tip ∷ tips) = (previous <ℤ tip) × Increasing tip tips

tips_iff_from :
    (max_tip previous : ℤ) (tips : List ℤ)
    → (tips_increase max_tip previous tips ≡ true)
      ↔ (Increasing previous tips × All (λ tip. tip ≤ℤ max_tip) tips)
unfolding tips_increase
tips_iff_from max_tip previous [] = (λ h. (tt, tt), λ h. refl)
tips_iff_from max_tip previous (tip ∷ tips) =
    let ih = tips_iff_from max_tip tip tips in
    (
      λ h. let rest = ih.0 (ground arith) in ((ground arith, rest.0), (ground arith, rest.1)),
      λ v. ground (arith, v.0.0, v.1.0, ih.1 (v.0.1, v.1.1)),
    )

pub record IsValidTips (invoice : InvoiceFields) : Type 0 where
  pub stars_none :
      is_stars invoice ≡ true
      → (invoice.max_tip_amount ≡ pos 0) × (length invoice.suggested_tip_amounts ≡ 0)
  pub max_not_negative : pos 0 ≤ℤ invoice.max_tip_amount
  pub at_most_four : length invoice.suggested_tip_amounts ≤ 4
  pub increasing : Increasing (pos 0) invoice.suggested_tip_amounts
  pub below_max : All (λ tip. tip ≤ℤ invoice.max_tip_amount) invoice.suggested_tip_amounts

pub tips_iff :
    (invoice : InvoiceFields) → (validate_invoice_tips invoice ≡ none) ↔ IsValidTips invoice
unfolding validate_invoice_tips
tips_iff invoice =
    let loop = tips_iff_from invoice.max_tip_amount (pos 0) invoice.suggested_tip_amounts in
    (
      λ h.
          let tips = loop.0 (ground arith) in
          record {
            stars_none = λ s. ground arith;
            max_not_negative = ground arith;
            at_most_four = ground arith;
            increasing = tips.0;
            below_max = tips.1;
          },
      λ v. ground (
        arith,
        v.stars_none,
        v.max_not_negative,
        v.at_most_four,
        loop.1 (v.increasing, v.below_max),
      ),
    )

abbrev pub FirstAtMost : ℤ → List LabeledPrice → Type 0
FirstAtMost most [] = ⊥
FirstAtMost most (price ∷ prices) = price.amount ≤ℤ most

-- A one-time invoice has no period; a subscription is paid in Stars, for thirty days, and its first
-- price is within the limit.
abbrev pub IsValidSubscription : InvoiceFields → InvoiceKind → Type 0
IsValidSubscription invoice invoice_one_time = invoice.subscription_period_seconds ≡ pos 0
IsValidSubscription invoice invoice_subscription =
    (is_stars invoice ≡ true)
    × (invoice.subscription_period_seconds ≡ period_seconds)
    × FirstAtMost max_stars_subscription_price invoice.prices

first_price_iff :
    (prices : List LabeledPrice)
    → (check_first_price prices ≡ none) ↔ FirstAtMost max_stars_subscription_price prices
unfolding check_first_price
first_price_iff [] = (λ h. ground arith, λ v. absurd v)
first_price_iff (price ∷ prices) = (λ h. ground arith, λ v. ground arith)

eq_ℤ_iff : (a b : ℤ) → (eq_ℤ a b ≡ true) ↔ (a ≡ b)
unfolding eq_ℤ
eq_ℤ_iff a b = (λ h. ground arith, λ h. ground arith)

pub subscription_iff :
    (invoice : InvoiceFields) (kind : InvoiceKind)
    → (validate_invoice_subscription invoice kind ≡ none) ↔ IsValidSubscription invoice kind
unfolding validate_invoice_subscription
subscription_iff invoice invoice_one_time = (λ h. ground arith, λ v. ground arith)
subscription_iff invoice invoice_subscription =
    let first = first_price_iff invoice.prices in
    let period = eq_ℤ_iff invoice.subscription_period_seconds period_seconds in
    (
      λ h. (ground arith, period.0 (ground arith), first.0 (ground arith)),
      λ v. ground (arith, v.0, period.1 v.1, first.1 v.2),
    )
