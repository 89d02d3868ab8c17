-- ===== src/Vcard/Inside.antt =====
-- What VCardFactory of src/vcardfactory.cpp does with the element of a part: it hands every event
-- inside it to the parser of the part.
use jreen.Base.{
  ℕ, zero, suc, ◌+◌, ◌-◌, Bool, false, none, some, List, [], ◌∷◌, ◌++◌, if◌then◌else◌, ◌==◌, Text,
  Hash, ◌≡◌, refl, sym, ap, ◌∙◌, arith,
}
use jreen.Prep.{Preps}
use jreen.Xml.{NsEvent, opened, text_read, closed}
use jreen.Form.Whole.{Whole}
use jreen.Vcard.Structure.{Base64}
use jreen.Vcard.Factory.{
  Conversions, Part, name_part, photo_part, telephone_part, email_part, address_part, org_part,
  at_root, at_part, CardFactory, part_of, start_child, end_child, take_part, feed_part, no_card,
  handle_card,
}

module _ {DateTime Url : Type 0} (q : Conversions DateTime Url) (j : Preps) (b : Base64) where
  unfoldable pub feed_card : List NsEvent → CardFactory DateTime Url → CardFactory DateTime Url
  feed_card [] f = f
  feed_card (e ∷ es) f = feed_card es (handle_card q j b e f)

  pub feed_card-append :
      (es fs : List NsEvent) (f : CardFactory DateTime Url)
      → feed_card (es ++ fs) f ≡ feed_card fs (feed_card es f)
  unfolding feed_card
  feed_card-append [] fs f = refl
  feed_card-append (e ∷ es) fs f = feed_card-append es fs (handle_card q j b e f)

  module _ (k : Part) where
    unfoldable pub feed_parts : List NsEvent → CardFactory DateTime Url → CardFactory DateTime Url
    feed_parts [] f = f
    feed_parts (e ∷ es) f = feed_parts es (feed_part q j b (some k) e f)

    -- Inside the element of the part, and after it.
    abbrev pub in_part : ℕ → CardFactory DateTime Url → CardFactory DateTime Url
    in_part n f = record f { depth = suc n; current_parser = some k; state = at_part k }

    abbrev pub after : CardFactory DateTime Url → CardFactory DateTime Url
    after f = record f {
      depth = 1;
      current_parser = none;
      state = at_root;
      card = take_part q j (at_part k) f;
    }

  -- Feeding the parser of a part leaves the rest as it is.
  pub feed_part-in_part :
      (k : Part) (e : NsEvent) (n : ℕ) (f : CardFactory DateTime Url)
      → feed_part q j b (some k) e (in_part k n f) ≡ in_part k n (feed_part q j b (some k) e f)
  unfolding feed_part
  feed_part-in_part name_part e n f = refl
  feed_part-in_part photo_part e n f = refl
  feed_part-in_part telephone_part e n f = refl
  feed_part-in_part email_part e n f = refl
  feed_part-in_part address_part e n f = refl
  feed_part-in_part org_part e n f = refl

  handle-opened :
      (k : Part) (name uri : Text) (attributes : Hash Text) (n : ℕ) (f : CardFactory DateTime Url)
      → handle_card q j b (opened name uri attributes) (in_part k (suc n) f)
        ≡ in_part k (suc (suc n)) (feed_part q j b (some k) (opened name uri attributes) f)
  unfolding handle_card
  handle-opened k name uri attributes n f =
      let e = opened name uri attributes in
      let g = in_part k (suc n) f in
      let entered : Bool → Bool → ℕ → CardFactory DateTime Url = λ one two depth.
        if one
        then record g { depth = depth; card = no_card q j; state = at_root }
        else if two
        then start_child q j (part_of name) name (record g { depth = depth })
        else record g { depth = depth } in
      let not_one : (suc (suc n) + 1 == 1) ≡ false = ground arith in
      let not_two : (suc (suc n) + 1 == 2) ≡ false = ground arith in
      let next : suc (suc n) + 1 ≡ suc (suc (suc n)) = omega arith in
      ap
        (λ z.
          feed_part q j b (entered z (suc (suc n) + 1 == 2) (suc (suc n) + 1)).current_parser e
            (entered z (suc (suc n) + 1 == 2) (suc (suc n) + 1)))
        not_one
      ∙ ap
          (λ z.
            feed_part q j b (entered false z (suc (suc n) + 1)).current_parser e
              (entered false z (suc (suc n) + 1)))
          not_two
      ∙ ap (λ z. feed_part q j b (some k) e (entered false false z)) next
      ∙ feed_part-in_part k e (suc (suc n)) f

  handle-closed :
      (k : Part) (n : ℕ) (f : CardFactory DateTime Url)
      → handle_card q j b closed (in_part k (suc (suc n)) f)
        ≡ in_part k (suc n) (feed_part q j b (some k) closed f)
  unfolding handle_card
  handle-closed k n f =
      let g = in_part k (suc (suc n)) f in
      let fed = feed_part q j b (some k) closed g in
      let left : Bool → CardFactory DateTime Url = λ z.
        record (if z then end_child q j (some k) fed else fed) { depth = suc (suc (suc n)) - 1 } in
      let at : ℕ → CardFactory DateTime Url = λ z. record fed { depth = z } in
      let lower : CardFactory DateTime Url → CardFactory DateTime Url =
        λ z. record z { depth = suc (suc n) } in
      let not_two : (suc (suc (suc n)) == 2) ≡ false = ground arith in
      let next : suc (suc (suc n)) - 1 ≡ suc (suc n) = omega arith in
      ap left not_two ∙ ap at next ∙ ap lower (feed_part-in_part k closed (suc (suc n)) f)

  handle-last :
      (k : Part) (f : CardFactory DateTime Url)
      → handle_card q j b closed (in_part k 1 f) ≡ after k (feed_part q j b (some k) closed f)
  unfolding handle_card feed_part take_part
  handle-last name_part f = refl
  handle-last photo_part f = refl
  handle-last telephone_part f = refl
  handle-last email_part f = refl
  handle-last address_part f = refl
  handle-last org_part f = refl

  -- An element that is inside the part as a whole is read by its parser, which is then asked for what
  -- it has read.
  pub feed_card-inside :
      (k : Part) (es : List NsEvent) (n : ℕ) (f : CardFactory DateTime Url)
      → Whole (suc n) es
      → feed_card es (in_part k (suc n) f) ≡ after k (feed_parts k es f)
  unfolding feed_card feed_parts handle_card
  feed_card-inside k [] n f whole = elim whole [ ]
  feed_card-inside k (opened name uri attributes ∷ es) n f whole =
      ap (λ z. feed_card es z) (handle-opened k name uri attributes n f)
      ∙ feed_card-inside k es (suc n) (feed_part q j b (some k) (opened name uri attributes) f)
          whole
  feed_card-inside k (text_read s ∷ es) n f whole =
      ap (λ z. feed_card es z) (feed_part-in_part k (text_read s) (suc n) f)
      ∙ feed_card-inside k es n (feed_part q j b (some k) (text_read s) f) whole
  feed_card-inside k (closed ∷ es) zero f whole =
      ap (λ z. feed_card z (handle_card q j b closed (in_part k 1 f))) whole
      ∙ handle-last k f
      ∙ ap (λ z. after k (feed_parts k z (feed_part q j b (some k) closed f))) (sym whole)
  feed_card-inside k (closed ∷ es) (suc n) f whole =
      ap (λ z. feed_card es z) (handle-closed k n f)
      ∙ feed_card-inside k es n (feed_part q j b (some k) closed f) whole
