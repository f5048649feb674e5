-- ===== src/Server/StreamEvents/Poses.antt =====
-- `transform_pose_for_client` of device_tasks.rs, with the products of `nalgebra` by components.
use odyssey_desktop.Common.Events.{Vector3, Matrix3, Pose}
use odyssey_desktop.Server.StreamEvents.Reports.{Types, Libraries}

module _ {K : Types} (lib : Libraries K) where
  -- `-v.xzy()`
  unfoldable pub negated_xzy : Vector3 K.Float → Vector3 K.Float
  negated_xzy v = record { x = lib.neg v.x; y = lib.neg v.z; z = lib.neg v.y }

  -- The product of `nalgebra`, by its components.
  unfoldable pub dot3 : K.Float → K.Float → K.Float → K.Float → K.Float → K.Float → K.Float
  dot3 a b c x y z = lib.add (lib.add (lib.mul a x) (lib.mul b y)) (lib.mul c z)

  unfoldable pub mat_mul : Matrix3 K.Float → Matrix3 K.Float → Matrix3 K.Float
  unfolding dot3
  mat_mul m n = record {
    m11 = dot3 m.m11 m.m12 m.m13 n.m11 n.m21 n.m31;
    m12 = dot3 m.m11 m.m12 m.m13 n.m12 n.m22 n.m32;
    m13 = dot3 m.m11 m.m12 m.m13 n.m13 n.m23 n.m33;
    m21 = dot3 m.m21 m.m22 m.m23 n.m11 n.m21 n.m31;
    m22 = dot3 m.m21 m.m22 m.m23 n.m12 n.m22 n.m32;
    m23 = dot3 m.m21 m.m22 m.m23 n.m13 n.m23 n.m33;
    m31 = dot3 m.m31 m.m32 m.m33 n.m11 n.m21 n.m31;
    m32 = dot3 m.m31 m.m32 m.m33 n.m12 n.m22 n.m32;
    m33 = dot3 m.m31 m.m32 m.m33 n.m13 n.m23 n.m33;
  }

  unfoldable pub mat_vec : Matrix3 K.Float → Vector3 K.Float → Vector3 K.Float
  unfolding dot3
  mat_vec m v = record {
    x = dot3 m.m11 m.m12 m.m13 v.x v.y v.z;
    y = dot3 m.m21 m.m22 m.m23 v.x v.y v.z;
    z = dot3 m.m31 m.m32 m.m33 v.x v.y v.z;
  }

  -- `diag(1, -1, -1)`
  unfoldable pub flip : Matrix3 K.Float
  flip = record {
    m11 = lib.one_float;
    m12 = lib.zero_float;
    m13 = lib.zero_float;
    m21 = lib.zero_float;
    m22 = lib.neg lib.one_float;
    m23 = lib.zero_float;
    m31 = lib.zero_float;
    m32 = lib.zero_float;
    m33 = lib.neg lib.one_float;
  }

  unfoldable pub transform_pose_for_client : Matrix3 K.Float → Vector3 K.Float → Pose K.Float
  unfolding mat_mul mat_vec flip
  transform_pose_for_client rotmat transvec = record {
    rotation = mat_mul (mat_mul flip rotmat) flip;
    translation = mat_vec flip transvec;
  }
