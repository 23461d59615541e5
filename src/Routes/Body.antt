-- ===== src/Routes/Body.antt =====
-- What the handlers share: the guard on the parsed body, and how they read its fields.
pub mod Sent
use leakshield.Base.{String, Bool, true, false, Option, none, some, [], if◌then◌else◌, length}
use leakshield.Base.Result.{Result, ok, ◌>>=◌}
use leakshield.Js.Text.{Text, lit, nonempty}
use leakshield.Js.Json.{
  Json, null, bool, str, arr, obj, nil, cons, Fields, end, field, lookup, get, has_key, truthy,
  call_trim, or_else, num,
}
use leakshield.Js.Http.{Outcome, json_response, local, ◌>=>◌}
use leakshield.Proxy.{failure, read_json_body}

-- `NextResponse.json({ ok: false, error }, { status: 400 })`
unfoldable pub refuse : String → Outcome
unfolding lit
refuse message = local (json_response (failure (lit message)) 400)

-- `if ("__error" in body) return … body.__error …`; the rest of the handler gets the body.
unfoldable pub with_body : Result Json → (Json → Outcome) → Outcome
with_body parsed rest =
    let body = read_json_body parsed in
    has_key "__error" body >=> λ bad.
    if bad
    then (get body "__error" >=> λ e.
        local
          (json_response (obj (field "ok" (bool false) (field "error" (or_else e null) end))) 400))
    else rest body

-- `v?.trim()`, where undefined and the empty string are both falsy.
unfoldable pub optional_trim : Option Json → Result Text
optional_trim none = ok []
optional_trim (some null) = ok []
optional_trim (some v) = call_trim v

-- `if (t) payload.k = t`
abbrev pub text_field : String → Text → Fields → Fields
text_field k t rest = if nonempty t then field k (str t) rest else rest

-- `if (v) payload.k = v`
abbrev pub truthy_field : String → Option Json → Fields → Fields
truthy_field k none rest = rest
truthy_field k (some v) rest = if truthy v then field k v rest else rest

-- `Boolean(v?.length)`
unfoldable pub has_length : Option Json → Bool
has_length none = false
has_length (some (str s)) = nonempty s
has_length (some (arr nil)) = false
has_length (some (arr (cons _ _))) = true
has_length (some (obj fs)) = elim (lookup "length" fs) [ none ↦ false | some n ↦ truthy n ]
has_length (some _) = false

-- `if (v?.length) payload.k = v`
abbrev pub list_field : String → Option Json → Fields → Fields
list_field k none rest = rest
list_field k (some v) rest = if has_length (some v) then field k v rest else rest

-- `if (typeof v === "number") payload.k = v`
abbrev pub number_field : String → Option Json → Fields → Fields
number_field k (some (num n)) rest = field k (num n) rest
number_field k _ rest = rest
