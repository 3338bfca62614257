-- ===== src/Admin.antt =====
-- The administration pages: apps/frontend/src/features/users/types/index.ts, and the modules for
-- AdminBatchesPage.tsx (Groups, Pages) and AdminUsersPage.tsx (Users).
pub mod Groups
pub mod Pages
pub mod Users
use flash_pay.Prelude.{Text}
use flash_pay.Auth.Session.{Role}

pub record AdminUser : Type 0 where
  pub id : Text
  pub name : Text
  pub email : Text
  pub role : Role
  pub created_at : Text
  pub updated_at : Text
