-- ===== src/Routes/Keys/Target.antt =====
-- Which address a request for a virtual key goes to, and what it names.
use leakshield.Base.{
  ◌<◌, ◌≡◌, refl, sym, ◌∙◌, ◌⊎◌, inl, inr, arith, true, some, [], ◌∷◌, ◌++◌, All, All-map,
}
use leakshield.Base.Result.{Result, ok, >>=-eq-ok, ok-injective}
use leakshield.Js.Text.{Text, lit, nonempty, trim}
use leakshield.Js.Json.{Json, str, obj, Fields, field, lookup, get}
use leakshield.Js.Uri.{encode_uri_component}
use leakshield.Js.Uri.Plain.{encode_uri_component-plain}
use leakshield.Js.Uri.Segment.{IsSegment, encode_uri_component-IsSegment}
use leakshield.Js.Http.{HttpRequest, Server}
use leakshield.Env.{gateway_url}
use leakshield.Proxy.{proxy_to_gateway}
use leakshield.Proxy.Contract.{proxy-IsAuthenticated}
use leakshield.Routes.Body.{optional_trim}
use leakshield.Routes.Body.Sent.{>=>-sent, refuse-sent, if-sent, with_body-sent}
use leakshield.Routes.Keys.{key_name, key_payload, key_options, create_key}

-- The two segments that a URL resolves away when they stand in a path.
abbrev pub IsDots : Text → Type 0
IsDots s = (s ≡ lit ".") ⊎ (s ≡ lit "..")

-- The address of the request has one segment between the users and the keys, which encodes the id of the
-- route, and which is no dot segment unless the id is; and the request names the key.
pub record IsKeyRequest (srv : Server) (id : Text) (req : HttpRequest) : Type 0 where
  pub id_given : nonempty (trim id) ≡ true
  pub segment : Text
  pub encoded : encode_uri_component id ≡ ok segment
  pub inner : IsSegment segment
  pub dots : IsDots segment → IsDots id
  pub url : req.url ≡ gateway_url srv (lit "/admin/v1/users/" ++ segment ++ lit "/keys")
  pub fields : Fields
  pub sent : req.body ≡ some (obj fields)
  pub name : Text
  pub name_sent : lookup "name" fields ≡ some (str name)
  pub name_given : nonempty name ≡ true

key_name-nonempty : (t : Text) → nonempty (key_name t) ≡ true
unfolding key_name
key_name-nonempty [] = refl
key_name-nonempty (c ∷ t) = refl

key_payload-named :
    (body payload : Json)
    → key_payload body ≡ ok payload
    → (t : Text) × (rest : Fields) × (payload ≡ obj (field "name" (str (key_name t)) rest))
unfolding key_payload
key_payload-named body payload e =
    let (found, _, e₁) = >>=-eq-ok (get body "name") _ e in
    let (t, _, e₂) = >>=-eq-ok (optional_trim found) _ e₁ in
    let (providers, _, e₃) = >>=-eq-ok (get body "allowed_providers") _ e₂ in
    let (models, _, e₄) = >>=-eq-ok (get body "allowed_models") _ e₃ in
    let (tokens, _, e₅) = >>=-eq-ok (get body "monthly_token_limit") _ e₄ in
    let (usd, _, e₆) = >>=-eq-ok (get body "monthly_usd_micro_limit") _ e₅ in
    (t, _, sym (ok-injective e₆))

encoded-IsDots :
    (id segment : Text) → encode_uri_component id ≡ ok segment → IsDots segment → IsDots id
unfolding lit
encoded-IsDots id segment e (inl one) =
    inl (encode_uri_component-plain id segment e (rw one (λ w. omega arith, tt)) ∙ one)
encoded-IsDots id segment e (inr two) = inr (
    encode_uri_component-plain id segment e (rw two (λ w. omega arith, (λ w. omega arith, tt)))
    ∙ two)

module _ (srv : Server) (id : Text) (units : All (λ c. c < 65536) id) where
  proxied-IsKeyRequest :
      (payload : Json) (segment t : Text) (rest : Fields)
      → nonempty (trim id) ≡ true
      → encode_uri_component id ≡ ok segment
      → payload ≡ obj (field "name" (str (key_name t)) rest)
      → All (IsKeyRequest srv id) (proxy_to_gateway srv (key_options segment payload)).sent
  unfolding key_options lookup
  proxied-IsKeyRequest payload segment t rest given encoded made =
      All-map
        (λ req a. record {
          id_given = given;
          segment = segment;
          encoded = encoded;
          inner = encode_uri_component-IsSegment id segment units encoded;
          dots = encoded-IsDots id segment encoded;
          url = a.url;
          fields = field "name" (str (key_name t)) rest;
          sent = rw (← made) a.body;
          name = key_name t;
          name_sent = refl;
          name_given = key_name-nonempty t;
        })
        _ (proxy-IsAuthenticated srv (key_options segment payload)).1

  -- Whatever is posted, the address of a request that the handler sends is the gateway's path of the users,
  -- one segment, and the keys: the segment is the id, encoded without a slash, a question mark or a number
  -- sign, and is neither a single dot nor two, unless the id itself is. The request names the key by a
  -- text that is not empty, and the id is not blank. The id is a text of UTF-16 code units.
  pub create_key-IsKeyRequest :
      (parsed : Result Json) → All (IsKeyRequest srv id) (create_key srv id parsed).sent
  unfolding create_key
  create_key-IsKeyRequest parsed =
      if-sent _ (nonempty (trim id)) _ _
        (λ given. with_body-sent _ parsed _ (λ body. >=>-sent _ (key_payload body) _ (λ payload p.
          >=>-sent _ (encode_uri_component id) _ (λ segment encoded.
            let (t, rest, made) = key_payload-named body payload p in
            proxied-IsKeyRequest payload segment t rest given encoded made))))
        (λ _. refuse-sent _ _)
