-- ===== src/Encode/Client.antt =====
-- How src/cktool.c and src/simple_demo.c use the encoder: before each frame they fetch headers until
-- `encode_get_headers` returns 0.
use camkit.Base.{
  ℕ, zero, suc, Option, none, some, List, [], ◌∷◌, Outcome, ok, out_of_fuel, ◌>>=◌, length,
}
use camkit.Encode.{EncHandle, Stages, PicType, none_pic, Vpu, encode_get_headers, encode_do}

unfoldable pub fetch_all :
    (Stages → PicType → Stages × Option PicType)
    → (fuel : ℕ) → Stages
    → PicType
    → Outcome (Stages × List PicType)
fetch_all get zero stages type = out_of_fuel
fetch_all get (suc fuel) stages type = elim (get stages type).1 [
  | none ↦ ok ((get stages type).0, [])
  | some t ↦ fetch_all get fuel (get stages type).0 t >>= λ r. ok (r.0, t ∷ r.1)
]

unfoldable pub fetch_headers :
    EncHandle → (fuel : ℕ) → Stages → PicType → Outcome (Stages × List PicType)
unfolding fetch_all
fetch_headers handle = fetch_all (encode_get_headers handle)

-- The headers before each frame of a list, with the answers of the VPU to each frame. A client
-- leaves its loop when a frame cannot be encoded.
unfoldable pub encode_frames :
    List (Vpu × List ℕ) → EncHandle → Stages → Outcome (EncHandle × Stages × List (List PicType))
unfolding fetch_headers
encode_frames [] handle stages = ok (handle, stages, [])
encode_frames ((vpu, frame) ∷ frames) handle stages =
    fetch_headers handle 5 stages none_pic >>= λ fetched.
    encode_do vpu handle frame (length frame) >>= λ encoded. elim encoded.1 [
      | none ↦ ok (encoded.0, fetched.0, fetched.1 ∷ [])
      | some output ↦ encode_frames frames encoded.0 fetched.0 >>= λ rest.
          ok (rest.0, rest.1, fetched.1 ∷ rest.2)
    ]
