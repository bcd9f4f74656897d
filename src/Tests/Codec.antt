-- ===== src/Tests/Codec.antt =====
-- A small JSON library: values are texts that hold a text, a list of values or members.
use vixy.Prelude.{
  ℕ, suc, zero, ◌≡◌, refl, ap, ◌∙◌, List, [], ◌∷◌, Option, none, some, Text, Dict, get, insert,
  get-insert,
}
use vixy.Ws.Json.{Json, JsonLaws}

-- Each text is closed by a zero, and its bytes are one higher.
abbrev close_text : Text → Text → Text
close_text [] rest = 0 ∷ rest
close_text (b ∷ t) rest = suc b ∷ close_text t rest

abbrev pack : List Text → Text
pack [] = []
pack (t ∷ ts) = close_text t (pack ts)

abbrev onto_first : ℕ → List Text → List Text
onto_first b [] = []
onto_first b (t ∷ ts) = (b ∷ t) ∷ ts

abbrev unpack : Text → List Text
unpack [] = []
unpack (zero ∷ rest) = [] ∷ unpack rest
unpack (suc b ∷ rest) = onto_first b (unpack rest)

unpack-close_text : (t rest : Text) → unpack (close_text t rest) ≡ t ∷ unpack rest
unpack-close_text [] rest = refl
unpack-close_text (b ∷ t) rest = ap (onto_first b) (unpack-close_text t rest)

pub unpack-pack : (ts : List Text) → unpack (pack ts) ≡ ts
unpack-pack [] = refl
unpack-pack (t ∷ ts) = unpack-close_text t (pack ts) ∙ ap (λ us. t ∷ us) (unpack-pack ts)

abbrev flat : Dict Text → List Text
flat [] = []
flat ((k, v) ∷ m) = k ∷ v ∷ flat m

abbrev paired : List Text → Dict Text
paired [] = []
paired (k ∷ []) = []
paired (k ∷ v ∷ ts) = (k, v) ∷ paired ts

pub paired-flat : (m : Dict Text) → paired (flat m) ≡ m
paired-flat [] = refl
paired-flat ((k, v) ∷ m) = ap (λ n. (k, v) ∷ n) (paired-flat m)

abbrev pub string : Text → Text
string t = 0 ∷ t

abbrev pub array : List Text → Text
array vs = 1 ∷ pack vs

abbrev pub object : Dict Text → Text
object m = 2 ∷ pack (flat m)

abbrev as_str : Text → Option Text
as_str (zero ∷ t) = some t
as_str _ = none

abbrev as_array : Text → Option (List Text)
as_array (suc zero ∷ t) = some (unpack t)
as_array _ = none

abbrev as_object : Text → Option (Dict Text)
as_object (suc (suc zero) ∷ t) = some (paired (unpack t))
as_object _ = none

abbrev member_of : Text → Option (Dict Text) → Option Text
member_of k none = none
member_of k (some m) = get k m

abbrev pub codec : Json
codec = record {
  Value = Text;
  Members = Dict Text;
  from_str = λ t. some t;
  to_string = λ v. v;
  get = λ k v. member_of k (as_object v);
  as_str = as_str;
  as_array = as_array;
  as_object = as_object;
  members_from_str = as_object;
  members_to_string = λ m. some (object m);
  no_members = [];
  member = λ k m. get k m;
  put = λ k v m. insert k v m;
  object = object;
  string = string;
  array = array;
}

-- This library reads back all that it wrote, and has no numbers; a value's depth is not limited.
abbrev pub codec_laws : JsonLaws codec
codec_laws = record {
  Readable = λ n v. Unit;
  MembersReadable = λ n m. Unit;
  from_str-to_string = λ n v lt r. refl;
  string-Readable = λ n t. tt;
  array-Readable = λ n vs rs. tt;
  object-Readable = λ n m r. tt;
  no_members-Readable = λ n. tt;
  put-Readable = λ n k v m r rs. tt;
  get-object = λ k m. ap (get k) (ap paired (unpack-pack (flat m)) ∙ paired-flat m);
  member-put = λ k i v m. get-insert k i v m;
  as_str-string = λ t. refl;
  as_array-array = λ vs. ap some (unpack-pack vs);
}
