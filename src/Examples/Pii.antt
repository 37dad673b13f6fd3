-- ===== src/Examples/Pii.antt =====
-- Checksums of personal numbers (crates/security/src/pii.rs) at concrete values.
use route_d.Prelude.{
  ◌≡◌, refl, true, false, some, [], Text, text, leb, ◌&&◌, arith, byte_len, filter, any,
}
use route_d.Security.Pii.{
  to_digit, digits, length, doubled, sum_from, luhn_ok, iban_value, iban_step, continue_with,
  iban_rem, split_at, is_remainder_one, rearranged_ok, compact, iban_mod97_ok, front, get_elem?,
  bump, count_digits, counts_ok, tax_step, tax_product, matches_check, de_tax_id_ok,
}
use route_d.Security.Pii.Luhn.{luhn_ok-one_digit}
use route_d.Security.Pii.TaxId.{de_tax_id_ok-one_digit}
use route_d.Security.Pii.Iban.{checks_out, numeral, iban_mod97_ok-decimal}

luhn_ok-one_digit_example : luhn_ok (text "4111 1111 1111 1112") ≡ false
unfolding luhn_ok sum_from doubled length digits to_digit
luhn_ok-one_digit_example =
    luhn_ok-one_digit (text "4111 1111 1111 111") [] 49 1 50 2 refl refl (λ e. omega arith) refl

abbrev bank : Text
bank = text "DE89 3704 0044 0532 0130 00"

iban_mod97_ok-decimal_example :
    iban_mod97_ok bank
    ≡ some (
        leb 15 (byte_len (compact bank))
        && leb (byte_len (compact bank)) 34
        && checks_out (numeral (text "370400440532013000DE89")))
unfolding compact filter
iban_mod97_ok-decimal_example =
    iban_mod97_ok-decimal bank 68 69 56 57 (text "370400440532013000") refl (omega arith)
      (omega arith) (omega arith) (omega arith)

bank_passes : iban_mod97_ok bank ≡ some true
unfolding iban_mod97_ok rearranged_ok is_remainder_one iban_rem continue_with iban_step iban_value
    split_at compact filter byte_len
bank_passes = refl

wrong_digit : iban_mod97_ok (text "DE89 3704 0044 0532 0130 01") ≡ some false
unfolding iban_mod97_ok rearranged_ok is_remainder_one iban_rem continue_with iban_step iban_value
    split_at compact filter byte_len
wrong_digit = refl

de_tax_id_ok-one_digit_example : de_tax_id_ok (text "86 095 742 819") ≡ false
unfolding de_tax_id_ok matches_check tax_product tax_step counts_ok count_digits bump get_elem?
    front length digits to_digit any
de_tax_id_ok-one_digit_example =
    de_tax_id_ok-one_digit (text "86 095 742 ") (text "19") 55 7 56 8 refl refl (λ e. omega arith)
      refl
