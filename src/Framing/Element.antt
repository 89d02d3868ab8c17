-- ===== src/Framing/Element.antt =====
-- XML elements as they are sent, an independent description of what a stanza is.
use jreen.Base.{ℕ, suc, ◌+◌, false, ◌≡◌, ◌≢◌, [], ◌∷◌, ◌++◌, Text, contains, get_or, length}

-- `<inside/>`, or `<inside>lead nodes</name>`; each node is an element and the text behind it.
mutual
  pub data Element : Type 0 where
    empty : Text → Element
    element : Text → Text → Nodes → Text → Element

  pub data Nodes : Type 0 where
    nil : Nodes
    node : Element → Text → Nodes → Nodes

abbrev pub end_tag : Text → Text → Text
end_tag name k = b'<' ∷ ((b'/' ∷ name) ++ b'>' ∷ k)

-- The bytes of an element, followed by `k`.
unfoldable mutual
  pub print : Element → Text → Text
  print (empty inside) k = b'<' ∷ ((inside ++ b'/' ∷ []) ++ b'>' ∷ k)
  print (element inside lead nodes name) k =
      b'<' ∷ (inside ++ b'>' ∷ (lead ++ print_nodes nodes (end_tag name k)))

  pub print_nodes : Nodes → Text → Text
  print_nodes nil k = k
  print_nodes (node e text nodes) k = print e (text ++ print_nodes nodes k)

-- No `>` stands inside a tag and no `<` in a text, a start tag does not begin or end with `/`,
-- and an empty tag does not begin with one.
abbrev mutual
  pub IsPlain : Element → Type 0
  IsPlain (empty inside) =
      (contains b'>' inside ≡ false) × (get_or (inside ++ b'/' ∷ []) 0 0 ≢ b'/')
  IsPlain (element inside lead nodes name) =
      (contains b'>' inside ≡ false)
      × (get_or (inside ++ b'>' ∷ []) 0 0 ≢ b'/')
      × (get_or (b'<' ∷ inside) (length inside) 0 ≢ b'/')
      × (contains b'<' lead ≡ false)
      × ArePlain nodes
      × (contains b'>' name ≡ false)

  pub ArePlain : Nodes → Type 0
  ArePlain nil = Unit {0}
  ArePlain (node e text nodes) = IsPlain e × (contains b'<' text ≡ false) × ArePlain nodes

-- The number of tags.
unfoldable mutual
  pub tags : Element → ℕ
  tags (empty inside) = 1
  tags (element inside lead nodes name) = suc (suc (tags_nodes nodes))

  pub tags_nodes : Nodes → ℕ
  tags_nodes nil = 0
  tags_nodes (node e text nodes) = tags e + tags_nodes nodes
