-- ===== src/Status/Tests.antt =====
-- Names of statuses and methods, and uses of the theorems.
use csi_http.Base.{codes, decimal, none, some, refl, ◌≡◌}
use csi_http.Status.{
  StatusType, not_found, see_other, code, of_code, status_name, method_name, of_number,
}

names :
    (status_name decimal not_found ≡ codes "not_found")
    × (status_name decimal see_other ≡ codes "303")
    × (of_code 303 ≡ see_other)
    × (of_code 299 ≡ StatusType.unlisted 299)
    × (method_name (of_number 3) ≡ some (codes "POST"))
    × (method_name (of_number 26) ≡ none)
unfolding status_name decimal code of_code method_name of_number
names = (refl, refl, refl, refl, refl, refl)
