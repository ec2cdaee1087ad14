-- ===== src/Fleet/Models/Dag/Search.antt =====
-- models.py, `validate_dag`: facts about the pieces of the search that the proofs share.
use evoagent_os.Base.{◌≡◌, refl}
use evoagent_os.Fleet.Models.Dag.{Checked, ok, err, ◌>>=◌}

pub >>=-eq-ok :
    {A B : Type 0} {result : B} (first : Checked A) (next : A → Checked B)
    (h : first >>= next ≡ ok result)
    → (value : A) × (first ≡ ok value) × (next value ≡ ok result)
>>=-eq-ok (err refusal) next h = cc
>>=-eq-ok (ok value) next h = (value, refl, h)
