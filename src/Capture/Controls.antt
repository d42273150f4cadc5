-- ===== src/Capture/Controls.antt =====
-- The nine functions of src/v4l_capture.c on brightness, contrast and saturation.
use camkit.Base.{Option}

pub data ControlId : Type 0 where
  cid_brightness cid_contrast cid_saturation : ControlId

-- `VIDIOC_QUERYCTRL`: `minimum`, `maximum` and `step`. A control has an `int` value `V`.
pub record Controls (V D : Type 0) : Type 0 where
  pub queryctrl : ControlId → D → Option (V × V × V)
  pub g_ctrl : ControlId → D → Option V
  pub s_ctrl : ControlId → V → D → Option D

-- `none` stands for the result of an `ioctl` below 0.
module _ {V D : Type 0} (driver : Controls V D) where
  abbrev pub capture_query_brightness : D → Option (V × V × V)
  capture_query_brightness = driver.queryctrl cid_brightness

  abbrev pub capture_get_brightness : D → Option V
  capture_get_brightness = driver.g_ctrl cid_brightness

  abbrev pub capture_set_brightness : V → D → Option D
  capture_set_brightness = driver.s_ctrl cid_brightness

  abbrev pub capture_query_contrast : D → Option (V × V × V)
  capture_query_contrast = driver.queryctrl cid_contrast

  abbrev pub capture_get_contrast : D → Option V
  capture_get_contrast = driver.g_ctrl cid_contrast

  abbrev pub capture_set_contrast : V → D → Option D
  capture_set_contrast = driver.s_ctrl cid_contrast

  abbrev pub capture_query_saturation : D → Option (V × V × V)
  capture_query_saturation = driver.queryctrl cid_saturation

  abbrev pub capture_get_saturation : D → Option V
  capture_get_saturation = driver.g_ctrl cid_saturation

  abbrev pub capture_set_saturation : V → D → Option D
  capture_set_saturation = driver.s_ctrl cid_saturation
