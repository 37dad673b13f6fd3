-- ===== src/Examples/Wire.antt =====
-- Headers and maps as lists, which meet the interfaces of crates/ingress-inline to the crates http
-- and indexmap. They are for instances of theorems.
use route_d.Prelude.{
  ◌≡◌, refl, not, none, some, List, [], ◌∷◌, ◌++◌, Text, text, text_ord, ◌==◌, if◌then◌else◌,
  filter, cmp_text_eq, cmp_text_refl, arith, ok, err, nat_ord,
}
use route_d.Inline.Http
use route_d.Inline.Http.{Http, named}
use route_d.Inline.Rewrite
use route_d.Inline.Rewrite.{IndexMap, RawJson, put, without, value_of}

abbrev pub dropped : Text → List (Text × Text) → List (Text × Text)
dropped k = filter λ e. not (e.0 == k)

abbrev pub http : Http
http = record {
  Headers = List (Text × Text);
  none_yet = [];
  entries = λ h. h;
  insert = λ h k v. dropped k h ++ (k, v) ∷ [];
  append = λ h k v. h ++ (k, v) ∷ [];
  remove = λ h k. dropped k h;
  header_name = some;
  header_value = some;
  to_str = some;
}

named-dropped :
    (h : List (Text × Text)) (k j : Text)
    → named (dropped k h) j ≡ (if k == j then [] else named h j)
unfolding filter
named-dropped [] k j = ground arith
named-dropped ((i, w) ∷ h) k j =
    ground (
      arith,
      named-dropped h k j,
      cmp_text_eq i k,
      cmp_text_eq i j,
      cmp_text_eq k j,
      cmp_text_refl i,
    )

named-append :
    (h : List (Text × Text)) (k v j : Text)
    → named (h ++ (k, v) ∷ []) j ≡ (if k == j then named h j ++ v ∷ [] else named h j)
unfolding filter
named-append [] k v j = ground arith
named-append ((i, w) ∷ h) k v j = ground (arith, named-append h k v j)

named-inserted :
    (h : List (Text × Text)) (k v j : Text)
    → named (dropped k h ++ (k, v) ∷ []) j ≡ (if k == j then v ∷ [] else named h j)
named-inserted h k v j = ground (arith, named-append (dropped k h) k v j, named-dropped h k j)

pub http-IsLawful : Http.IsLawful http
unfolding filter
http-IsLawful = record {
  get_all-none = λ k. refl;
  get_all-insert = λ h k v j. named-inserted h k v j;
  get_all-append = named-append;
  get_all-remove = named-dropped;
}

abbrev pub index_map : IndexMap
index_map = record {
  Map = List (Text × Text);
  entries = λ m. m;
  get = value_of;
  insert = put;
  shift_remove = without;
}

pub index_map-IsLawful : Rewrite.IsLawful index_map
index_map-IsLawful = record {
  entries-insert = λ m k v. refl;
  entries-remove = λ m k. refl;
  get-entries = λ m k. refl;
}

-- the body that the byte 1 stands for
abbrev pub fields : List (Text × Text)
fields =
    (text "model", text "\"auto\"")
    ∷ (text "temperature", text "0.20")
    ∷ (text "max_completion_tokens", text "9")
    ∷ (text "stream", text "true")
    ∷ []

abbrev pub raw_json : RawJson (List (Text × Text))
raw_json = record {
  Object = Text;
  from_slice = λ body. if body == 1 ∷ [] then ok fields else err (text "expected value");
  quote = λ s. ok (34 ∷ s ++ 34 ∷ []);
  from_str = λ s. none;
  empty = [];
  insert = λ o k v. v;
  to_string = λ o. o;
  decimal = λ n. n ∷ [];
}
