-- ===== src/Bookmark/RoundTrip.antt =====
-- Bookmarks that are written and read are the same bookmarks.
use jreen.Base.{
  Bool-cases, inl, inr, text_eq, Bool, true, false, none, List, [], ◌∷◌, ◌++◌, Text, text,
  text_discrete, Hash, get, append_assoc, append-nil, ◌≡◌, refl, ap, ◌∙◌, arith,
}
use jreen.Prep.{Preps}
use jreen.Jid
use jreen.Jid.{JidData, empty_jid, is_bare, bare_jid}
use jreen.Xml.{
  NsEvent, opened, text_read, closed, given, given_element, or_empty, get-given_other,
  value-given_self,
}
use jreen.Xml
use jreen.Bookmark.{
  set_jid, Conference, no_conference, Bookmark, at_nowhere, at_conference, Factory, handle_event,
  feed, autojoin_text, write_conferences, serialize, read_conference, ns_bookmarks, State,
}

module _ (p : Preps) (unknown_below : Bool) where
  -- The JID of a bookmark reads as itself and is bare, as `setJid` leaves it.
  pub record IsStored (c : Conference) : Type 0 where
    pub jid_read : (Jid.set_jid p empty_jid c.jid.full).1 ≡ c.jid
    pub jid_bare : bare_jid c.jid ≡ c.jid

  abbrev pub AllStored : List Conference → Type 0
  AllStored [] = Unit {0}
  AllStored (c ∷ cs) = IsStored c × AllStored cs

  set_jid-bare :
      (j : JidData) (c : Conference)
      → bare_jid j ≡ j
      → set_jid p unknown_below j c ≡ record c { jid = j }
  unfolding set_jid
  set_jid-bare j c h = elim (Bool-cases (is_bare j)) [
    | inl e ↦ rw e
    | inr e ↦ rw e (ap (λ z. record c { jid = z }) h)
  ]

  autojoin_lem :
      (b : Bool)
      → text_eq
          (Xml.value (text "autojoin") ((text "autojoin", autojoin_text b) ∷ []))
          (text "true")
        ≡ b
  unfolding get text_discrete
  autojoin_lem true = refl
  autojoin_lem false = refl

  abbrev attributes_of : Conference → Hash Text
  attributes_of c =
      given (text "jid") c.jid.full
        (given (text "name") c.name ((text "autojoin", autojoin_text c.autojoin) ∷ []))

  read_conference_lem :
      (c : Conference)
      → IsStored c
      → read_conference p unknown_below (attributes_of c) ≡ record c { nick = []; password = [] }
  unfolding read_conference text_discrete get
  read_conference_lem c h =
      let auto : Hash Text = (text "autojoin", autojoin_text c.autojoin) ∷ [] in
      let names = given (text "name") c.name auto in
      let no_jid : get (text "jid") names ≡ none =
        get-given_other (text "jid") (text "name") c.name auto refl in
      let jid_right = value-given_self (text "jid") c.jid.full names no_jid in
      let name_right =
        ap or_empty (get-given_other (text "name") (text "jid") c.jid.full names refl)
        ∙ value-given_self (text "name") c.name auto refl in
      let auto_right =
        ap (λ z. text_eq (or_empty z) (text "true"))
          (get-given_other (text "autojoin") (text "jid") c.jid.full names refl
            ∙ get-given_other (text "autojoin") (text "name") c.name auto refl)
        ∙ autojoin_lem c.autojoin in
      let read = ap (λ z. (Jid.set_jid p empty_jid z).1) jid_right ∙ h.jid_read in
      (λ i.
        set_jid p unknown_below (read i)
          (record no_conference { name = name_right i; autojoin = auto_right i }))
      ∙ set_jid-bare c.jid (record no_conference { name = c.name; autojoin = c.autojoin })
          h.jid_bare

  -- Between conferences the state does not matter.
  abbrev inside : State → Bookmark → Conference → Factory
  inside s b c = record { depth = 2; state = s; bookmark = b; conference = c }

  read_nick :
      (s : Text) (b : Bookmark) (c : Conference) (rest : List NsEvent)
      → c.nick ≡ []
      → feed p unknown_below
          (given_element (text "nick") ns_bookmarks s rest)
          (inside at_conference b c)
        ≡ feed p unknown_below rest (inside at_conference b (record c { nick = s }))
  unfolding feed handle_event text_discrete
  read_nick [] b c rest h =
      ap (λ z. feed p unknown_below rest (inside at_conference b (record c { nick = z }))) h
  read_nick (x ∷ s) b c rest h = refl

  read_password :
      (s : Text) (b : Bookmark) (c : Conference) (rest : List NsEvent)
      → c.password ≡ []
      → feed p unknown_below
          (given_element (text "password") ns_bookmarks s rest)
          (inside at_conference b c)
        ≡ feed p unknown_below rest (inside at_conference b (record c { password = s }))
  unfolding feed handle_event text_discrete
  read_password [] b c rest h =
      ap (λ z. feed p unknown_below rest (inside at_conference b (record c { password = z }))) h
  read_password (x ∷ s) b c rest h = refl

  abbrev between : State → Bookmark → Conference → Factory
  between s b c = record { depth = 1; state = s; bookmark = b; conference = c }

  start_conference :
      (c d : Conference) (s : State) (b : Bookmark)
      → IsStored c
      → handle_event p unknown_below
          (opened (text "conference") ns_bookmarks (attributes_of c))
          (between s b d)
        ≡ inside at_conference b (record c { nick = []; password = [] })
  unfolding handle_event text_discrete
  start_conference c d s b h = ap (λ z. inside at_conference b z) (read_conference_lem c h)

  feed-write_conferences :
      (cs : List Conference) (s : State) (b : Bookmark) (d : Conference)
      → AllStored cs
      → (feed p unknown_below (write_conferences cs (closed ∷ [])) (between s b d)).bookmark
        ≡ b ++ cs
  unfolding feed write_conferences handle_event
  feed-write_conferences [] s b d h = ground (arith, append-nil b)
  feed-write_conferences (c ∷ cs) s b d h =
      let blank = record c { nick = []; password = [] } in
      let after = closed ∷ write_conferences cs (closed ∷ []) in
      let secret = given_element (text "password") ns_bookmarks c.password after in
      let children = given_element (text "nick") ns_bookmarks c.nick secret in
      ap (λ z. (feed p unknown_below children z).bookmark) (start_conference c d s b h.0)
      ∙ ap (λ z. z.bookmark)
          (read_nick c.nick b blank secret refl
            ∙ read_password c.password b (record c { password = [] }) after refl)
      ∙ feed-write_conferences cs at_conference (b ++ c ∷ []) c h.1
      ∙ append_assoc b (c ∷ []) cs

  -- Bookmarks that are written and read are the same bookmarks in the same order, where each JID is
  -- bare and reads as itself.
  pub bookmark-serialize :
      (b : Bookmark) (f : Factory)
      → f.depth ≡ 0
      → AllStored b
      → (feed p unknown_below (serialize b) f).bookmark ≡ b
  unfolding feed serialize handle_event
  bookmark-serialize b f d h =
      ap (λ z. (feed p unknown_below (write_conferences b (closed ∷ [])) z).bookmark)
        (ground (arith, d))
      ∙ feed-write_conferences b at_nowhere [] f.conference h
