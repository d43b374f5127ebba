-- ===== src/Agent/Coordinates.antt =====
-- platform/browser-agent/src/coordinateMapper.js, on natural coordinates, offsets and scale factors.
use web_action_recorder_exte.Common.{
  ◌&&◌, Option, none, some, ℕ, ◌+◌, ◌*◌, ◌||◌, ltb, Bool, false, if◌then◌else◌,
}
use web_action_recorder_exte.Core.Errors.{Result, ok, err, ◌>>=◌, domain_error, plain_error}

pub record Point : Type 0 where
  pub x : ℕ
  pub y : ℕ

pub record Size : Type 0 where
  pub width : ℕ
  pub height : ℕ

pub record CoordinateMapper : Type 0 where
  pub viewport : Size
  pub screen : Size
  pub device_scale_factor : ℕ
  pub chrome_offset : Point

-- `validatePoint`; `in_browser` stands for the space `'browser'`.
unfoldable pub validate_point : CoordinateMapper → Point → (in_browser : Bool) → Result Point
validate_point m p in_browser =
    let bounds = if in_browser then m.screen else m.viewport in
    if ltb bounds.width p.x || ltb bounds.height p.y then err (domain_error plain_error) else ok p

-- `mapViewportToScreen`
unfoldable pub map_viewport_to_screen : CoordinateMapper → Point → Result Point
unfolding validate_point
map_viewport_to_screen m p = validate_point m p false >>= λ valid. ok (record {
  x = (valid.x + m.chrome_offset.x) * m.device_scale_factor;
  y = (valid.y + m.chrome_offset.y) * m.device_scale_factor;
})

-- `updateFromPage`; a size that is absent or has an empty side is passed over.
unfoldable pub update_from_page : CoordinateMapper → Option Size → CoordinateMapper
update_from_page m none = m
update_from_page m (some viewport) =
    if ltb 0 viewport.width && ltb 0 viewport.height then record m { viewport = viewport } else m
