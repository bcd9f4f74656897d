-- ===== src/Config/Validation.antt =====
-- Which configurations config.rs accepts, and which error it reports.
use vixy.Prelude.{
  is_empty-append, Result-cases, ◌≡◌, ◌≢◌, ◌↔◌, ◌⊎◌, inl, inr, List, [], ◌∷◌, ◌++◌, Text, bytes,
  All, Result, ok, err, arith, starts_with_iff,
}
use vixy.Config.{
  Config, ElNode, Cl, Report, wrapped, validate_url, validate_el_node, validate_el_nodes,
  validate_el, validate_cl, validate_cls, validate, parse, load, quoted,
}

-- `url` is `scheme` and something behind it.
abbrev pub HasScheme : Text → Text → Type 0
HasScheme scheme url = (rest : Text) × (url ≡ scheme ++ rest)

module _ (url_parse : Text → Result Text (Unit {0})) where
  -- One of the four schemes, and the URL parser accepts.
  abbrev pub UrlAccepted : Text → Type 0
  UrlAccepted url =
      (HasScheme (bytes "http://") url
        ⊎ HasScheme (bytes "https://") url
        ⊎ HasScheme (bytes "ws://") url
        ⊎ HasScheme (bytes "wss://") url)
      × (url_parse url ≡ ok tt)

  abbrev pub ElNodeAccepted : ElNode → Type 0
  ElNodeAccepted node = UrlAccepted node.http_url × UrlAccepted node.ws_url

  abbrev pub ConfigAccepted : Config → Type 0
  ConfigAccepted c =
      (c.el.primary ≢ [])
      × All ElNodeAccepted c.el.primary
      × All ElNodeAccepted c.el.backup
      × (c.cl ≢ [])
      × All (λ n. UrlAccepted n.url) c.cl

  validate_url_iff :
      (url field : Text) → (validate_url url_parse url field ≡ ok tt) ↔ UrlAccepted url
  unfolding validate_url
  validate_url_iff url field = ground (
    arith,
    starts_with_iff (bytes "http://") url,
    starts_with_iff (bytes "https://") url,
    starts_with_iff (bytes "ws://") url,
    starts_with_iff (bytes "wss://") url,
  )

  validate_el_node_iff :
      (node : ElNode) → (validate_el_node url_parse node ≡ ok tt) ↔ ElNodeAccepted node
  unfolding validate_el_node
  validate_el_node_iff node = ground (
    arith,
    validate_url_iff node.http_url (bytes "http_url"),
    validate_url_iff node.ws_url (bytes "ws_url"),
  )

  validate_el_nodes_iff :
      (label : Text) (nodes : List ElNode)
      → (validate_el_nodes url_parse label nodes ≡ ok tt) ↔ All ElNodeAccepted nodes
  unfolding validate_el_nodes
  validate_el_nodes_iff label [] = ground arith
  validate_el_nodes_iff label (node ∷ nodes) =
      ground (arith, validate_el_node_iff node, validate_el_nodes_iff label nodes)

  validate_cls_iff :
      (nodes : List Cl)
      → (validate_cls url_parse nodes ≡ ok tt) ↔ All (λ n. UrlAccepted n.url) nodes
  unfolding validate_cls validate_cl
  validate_cls_iff [] = ground arith
  validate_cls_iff (node ∷ nodes) =
      ground (arith, validate_url_iff node.url (bytes "url"), validate_cls_iff nodes)

  validate_iff : (c : Config) → (validate url_parse c ≡ ok tt) ↔ ConfigAccepted c
  unfolding validate validate_el
  validate_iff c = ground (
    arith,
    validate_el_nodes_iff (bytes "invalid primary EL node") c.el.primary,
    validate_el_nodes_iff (bytes "invalid backup EL node") c.el.backup,
    validate_cls_iff c.cl,
  )

  -- What `validate` keeps of a list whose nodes before `bad` are accepted.
  validate_el_nodes-first_bad :
      (label : Text) (good rest : List ElNode) (bad : ElNode) (e : Report)
      → All ElNodeAccepted good
      → validate_el_node url_parse bad ≡ err e
      → validate_el_nodes url_parse label (good ++ bad ∷ rest)
        ≡ err (wrapped (quoted label bad.name) e)
  unfolding validate_el_nodes
  validate_el_nodes-first_bad label [] rest bad e h b = rw b
  validate_el_nodes-first_bad label (node ∷ good) rest bad e h b =
      rw ((validate_el_node_iff node).1 h.0)
        (validate_el_nodes-first_bad label good rest bad e h.1 b)

  -- When a primary EL node has a bad URL, validation fails with the report on the first such node,
  -- under its name and the two contexts, whatever the nodes behind it, the backups and the CL nodes.
  pub validate-first_bad_primary :
      (c : Config) (good rest : List ElNode) (bad : ElNode) (e : Report)
      → c.el.primary ≡ good ++ bad ∷ rest
      → All ElNodeAccepted good
      → validate_el_node url_parse bad ≡ err e
      → validate url_parse c
        ≡ err (
            wrapped
              (bytes "invalid EL configuration")
              (wrapped (quoted (bytes "invalid primary EL node") bad.name) e))
  unfolding validate validate_el
  validate-first_bad_primary c good rest bad e split h b = ground (
    arith,
    is_empty-append good rest bad,
    validate_el_nodes-first_bad (bytes "invalid primary EL node") good rest bad e h b,
  )

  module _ (from_str : Text → Result Text Config) (read_to_string : Text → Result Text Text) where
    parse_iff :
        (s : Text) (c : Config)
        → (parse url_parse from_str read_to_string s ≡ ok c)
          ↔ ((from_str s ≡ ok c) × ConfigAccepted c)
    unfolding parse
    parse_iff s c = elim (Result-cases (from_str s)) [
      | inl (d, e) ↦ rw e (ground (arith, validate_iff c, validate_iff d))
      | inr (m, e) ↦ rw e (ground arith)
    ]

    -- A file loads as `c` exactly when it can be read, its content decodes as `c`, there are a
    -- primary EL node and a CL node, and every URL has one of the four schemes and parses.
    pub load_iff :
        (path : Text) (c : Config)
        → (load url_parse from_str read_to_string path ≡ ok c) ↔ (
            (content : Text) × (read_to_string path ≡ ok content)
            × (from_str content ≡ ok c)
            × ConfigAccepted c)
    unfolding load
    load_iff path c = elim (Result-cases (read_to_string path)) [
      | inl (s, e) ↦ (
        λ h. let (d, a) = (parse_iff s c).0 (ground (arith, h, e)) in (s, e, d, a),
        λ (t, r, d, a). ground (arith, e, r, (parse_iff t c).1 (d, a)),
      )
      | inr (m, e) ↦ (λ h. absurd (ground arith), λ (t, r, d, a). absurd (ground (arith, e, r)))
    ]
