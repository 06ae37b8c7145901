-- ===== src/Examples/Configuration.antt =====
-- The theorems on default headers and card numbers at concrete inputs.
use stripelink.Prelude.{
  ℕ, codes, ◌==◌, ◌≡◌, refl, true, false, ◌&&◌, none, List, [], ◌∷◌, length, leb, eqb, ◌%◌,
}
use stripelink.Client.{
  ClientNet, HttpHeader, is_reserved, breaks_line, set_header, copy_and_validate,
  copy_and_validate_default_headers, add_default_headers,
}
use stripelink.Client.Headers.{Added, default_headers-Added}
use stripelink.Diagnostics.CardNumber.{
  digits_of, luhn_sum, weighted_sum, is_payment_card_number, is_payment_card_number-luhn_sum,
}

abbrev net : ClientNet
net = record {
  parse_url = λ _. none;
  url_text = λ u. u.host;
  is_loopback_ip = λ _. false;
  canonical_key = λ s. s;
  equal_fold = λ s t. s == t;
}

abbrev tracing : HttpHeader
tracing = ("X-Trace", "on") ∷ []

abbrev accepting : HttpHeader
accepting = ("Accept", "application/json") ∷ []

default_headers-Added_example : Added net accepting (add_default_headers net accepting tracing)
unfolding copy_and_validate_default_headers copy_and_validate set_header is_reserved breaks_line
default_headers-Added_example = default_headers-Added net tracing tracing accepting refl

abbrev card : List ℕ
card = codes "4242-4242-4242-4242"

card-accepted : is_payment_card_number card ≡ true
unfolding is_payment_card_number digits_of weighted_sum
card-accepted = refl

is_payment_card_number-luhn_sum_example : is_payment_card_number card ≡ (
    leb 12 (length (digits_of card))
    && leb (length (digits_of card)) 19
    && eqb (luhn_sum (digits_of card) % 10) 0)
is_payment_card_number-luhn_sum_example = is_payment_card_number-luhn_sum card
