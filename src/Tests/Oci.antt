-- ===== src/Tests/Oci.antt =====
-- A registry of images that is a list, and the client of a repository in it. A reference is the text of
-- the parts, with a mark in front of each character and another one behind each part.
use Prim.Native.Char.{Char, code}
use mathlib.Core.Option
use propagation_controller.Base.{
  ◌≡◌, ◌≢◌, refl, sym, ap, ◌∙◌, String, List, [], ◌∷◌, Option, none, some, Result, ok, err,
  ok_injective, err-ne-ok, none-ne-some, ◌==◌, if◌then◌else◌, eq_iff, nat_eq, inl, inr, Bool-cases,
  pos,
}
use propagation_controller.Clients.{Bytes, status_payload, same_bytes}
use propagation_controller.Clients.Exchange.{IsCodec}
use propagation_controller.Clients.Oci.{ImageLibrary, Json, Heap, oci_client}
use propagation_controller.Clients.Oci.Lawful.{IsImageLibrary, oci_contents, oci_client-IsCodec}
use propagation_controller.Clients.Publish.Cases.{same_bytes_eq}
use propagation_controller.Base.Fallible.{◌>>=◌}
use propagation_controller.Base.{>>=-eq-ok}
use propagation_controller.Api.{DeploymentStatus}
use propagation_controller.Controller.{Cluster}
use propagation_controller.Tests.Config.{propagation_of}
use propagation_controller.Tests.Speaking.{speak, speaking-IsCodec}
use propagation_controller.Tests.Clients.{codes, decode}

abbrev more : Char
more = "1"

abbrev over : Char
over = "0"

unfoldable marked : String → String → String
marked String.[] rest = String.◌∷◌ over rest
marked (String.◌∷◌ c s) rest = String.◌∷◌ more (String.◌∷◌ c (marked s rest))

unmark : String → String × String
unmark String.[] = ("", "")
unmark (String.◌∷◌ m String.[]) = ("", "")
unmark (String.◌∷◌ m (String.◌∷◌ c s)) =
    let (t, rest) = unmark s in
    if nat_eq (code m) (code more) then (String.◌∷◌ c t, rest) else ("", String.◌∷◌ c s)

unmark-marked : (s rest : String) → unmark (marked s rest) ≡ (s, rest)
unfolding unmark marked
unmark-marked String.[] String.[] = refl
unmark-marked String.[] (String.◌∷◌ c rest) = refl
unmark-marked (String.◌∷◌ c s) rest =
    ap {B = String × String} (λ x. (String.◌∷◌ c x.0, x.1)) (unmark-marked s rest)

marked-injective :
    (s s' rest rest' : String) → marked s rest ≡ marked s' rest' → (s ≡ s') × (rest ≡ rest')
marked-injective s s' rest rest' e =
    let same = sym (unmark-marked s rest) ∙ ap unmark e ∙ unmark-marked s' rest' in
    (ap (λ x. x.0) same, ap (λ x. x.1) same)

abbrev reference : String → String → String → String → String
reference repository s d t = marked s (marked d (marked t ""))

-- The images that are stored, by their references. An image is the text of its contents.
abbrev Images : Type 0
Images = List (String × String)

unfoldable find : String → Images → Option String
find r [] = none
find r ((q, i) ∷ images) = if q == r then some i else find r images

abbrev stored : Images → String → Option Bytes
stored w r = Option.map codes (find r w)

abbrev or_no_image : Option String → Result String
or_no_image none = err "not found"
or_no_image (some i) = ok i

or_no_image_ok : (o : Option String) (i : String) → or_no_image o ≡ ok i → o ≡ some i
or_no_image_ok none i e = absurd (err-ne-ok e)
or_no_image_ok (some j) i e = ap some (ok_injective e)

find_put : (r i : String) (w : Images) → find r ((r, i) ∷ w) ≡ some i
unfolding find
find_put r i w = ap (λ b. if b then some i else find r w) ((eq_iff r r).1 refl)

find_put_other : (r q i : String) (w : Images) → r ≢ q → find q ((r, i) ∷ w) ≡ find q w
unfolding find
find_put_other r q i w other = elim (Bool-cases (r == q)) [
  | inl e ↦ absurd (other ((eq_iff r q).0 e))
  | inr e ↦ ap (λ b. if b then some i else find q w) e
]

-- The text of a layer: the two that are statuses, and nothing else.
abbrev second : Bytes → Result String
second y = if same_bytes y (codes "v2") then ok "v2" else err "no text"

abbrev text_of : Bytes → Result String
text_of y = if same_bytes y (codes "v1") then ok "v1" else second y

abbrev library : ImageLibrary Images String String
library = record {
  image_digest = λ i. ok i;
  export = λ i w. (ok (codes i), w);
  pull = λ r auth w. (or_no_image (find r w), w);
  remote_digest = λ r auth w. (or_no_image (find r w), w);
  push = λ i r auth w. (ok tt, (r, i) ∷ w);
  layer_image = text_of;
}

text_of-codes : (y : Bytes) (i : String) → text_of y ≡ ok i → codes i ≡ y
text_of-codes y i e = elim (Bool-cases (same_bytes y (codes "v1"))) [
  | inl f ↦
      ap codes (ok_injective (sym e ∙ ap (λ b. if b then ok "v1" else second y) f))
      ∙ sym (same_bytes_eq y (codes "v1") f)
  | inr f ↦ elim (Bool-cases (same_bytes y (codes "v2"))) [
    | inl g ↦
        ap codes (
          ok_injective (
            sym e
            ∙ ap (λ b. if b then ok "v1" else second y) f
            ∙ ap (λ b. if b then ok "v2" else err "no text") g))
        ∙ sym (same_bytes_eq y (codes "v2") g)
    | inr g ↦ absurd (
        err-ne-ok (
          sym (
            ap (λ b. if b then ok "v1" else second y) f
            ∙ ap (λ b. if b then ok "v2" else err "no text") g)
          ∙ e))
  ]
]

-- Nothing is kept.
abbrev heap : Heap Images String
heap = record { get_data = λ a w. none; set_data = λ a y w. w }

-- The law holds.
library-IsImageLibrary : IsImageLibrary library heap reference stored codes
library-IsImageLibrary = record {
  apart = λ repository s s' d d' t t' e.
      let (same, rest) =
        marked-injective s s' (marked d (marked t "")) (marked d' (marked t' "")) e in
      let (same', rest') = marked-injective d d' (marked t "") (marked t' "") rest in
      (same, same', (marked-injective t t' "" "" rest').0);
  pull_reads = λ r auth w i e. ap (Option.map codes) (or_no_image_ok (find r w) i e);
  pull_keeps = λ r q auth w. refl;
  digest_reads = λ r auth w i d e f.
      ap (Option.map codes) (or_no_image_ok (find r w) d e)
      ∙ ap (λ a. some (codes a)) (ok_injective (sym f));
  digest_keeps = λ r q auth w. refl;
  push_writes = λ i r auth w e. ap (Option.map codes) (find_put r i w);
  push_keeps = λ i r q auth w other. ap (Option.map codes) (find_put_other r q i w other);
  push_fails = λ i r auth w e f. absurd (err-ne-ok (sym f));
  export_reads = λ i w y e. ok_injective e;
  export_keeps = λ i q w. refl;
  get_data_reads = λ a w y e. absurd (none-ne-some e);
  set_data_keeps = λ a y q w. refl;
}

abbrev json : Json
json = record {
  marshal = λ payload. (speak payload >>= λ a. ok (codes a));
  unmarshal_status = decode;
  unmarshal_config = λ y. err "not a configuration";
}

marshal-decode :
    (status : DeploymentStatus) (y : Bytes)
    → json.marshal (status_payload status) ≡ ok y
    → decode y ≡ ok status
marshal-decode status y e =
    let (a, spoken, same) = >>=-eq-ok (speak (status_payload status)) (λ a. ok (codes a)) e in
    ap decode (sym (ok_injective same))
    ∙ speaking-IsCodec (record { environments = [] }) status a spoken

codec :
    IsCodec
      (oci_contents "latest" library json reference heap stored codes library-IsImageLibrary
        "registry/app" none)
      (λ t. t)
      (oci_client "latest" library json reference heap "registry/app" none)
codec =
    oci_client-IsCodec "latest" library json reference heap stored codes library-IsImageLibrary
      "registry/app" none (λ t. t) text_of-codes marshal-decode

abbrev url : String
url = "oci://registry/app"

abbrev cluster : Cluster Images
cluster = record {
  get_propagation = λ key w. (ok (propagation_of key.name), w);
  update_status = λ p w. (ok p, w);
  set_status_condition = λ c conditions w. (c ∷ conditions, w);
  find_status_condition = λ conditions type. none;
  now = λ w. (pos 200, w);
}

abbrev parse_auth : Bytes → Result String
parse_auth y = ok "auth"
