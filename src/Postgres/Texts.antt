-- ===== src/Postgres/Texts.antt =====
-- server/postgres_storage.go: the texts of the SQL statements.
use grpc_example.Common.{String}

unfoldable pub schema : String
schema =
    "\n\tCREATE TABLE IF NOT EXISTS users (\n\t\tid SERIAL PRIMARY KEY,\n\t\tusername VARCHAR(255) NOT NULL UNIQUE,\n\t\trole INTEGER NOT NULL DEFAULT 0,\n\t\temail VARCHAR(255),\n\t\tphone VARCHAR(50),\n\t\tdisplay_name VARCHAR(255),\n\t\tbio TEXT,\n\t\tavatar_url TEXT,\n\t\tdate_of_birth TIMESTAMPTZ,\n\t\tpreferences JSONB,\n\t\ttags TEXT[],\n\t\tmetadata JSONB,\n\t\tstatus INTEGER NOT NULL DEFAULT 0,\n\t\tcreate_date TIMESTAMPTZ NOT NULL DEFAULT NOW(),\n\t\tlast_login TIMESTAMPTZ,\n\t\taddresses JSONB\n\t);\n\n\tCREATE INDEX IF NOT EXISTS idx_users_username ON users(username);\n\tCREATE INDEX IF NOT EXISTS idx_users_role ON users(role);\n\tCREATE INDEX IF NOT EXISTS idx_users_status ON users(status);\n\tCREATE INDEX IF NOT EXISTS idx_users_create_date ON users(create_date);\n\t"

unfoldable pub insert_query : String
insert_query =
    "\n\t\tINSERT INTO users (\n\t\t\tid, username, role, email, phone,\n\t\t\tdisplay_name, bio, avatar_url, date_of_birth, preferences,\n\t\t\ttags, metadata, status, create_date, last_login, addresses\n\t\t) VALUES ($1, $2, $3, $4, $5, $6, $7, $8, $9, $10, $11, $12, $13, $14, $15, $16)\n\t\tON CONFLICT (id) DO UPDATE SET\n\t\t\tusername = EXCLUDED.username,\n\t\t\trole = EXCLUDED.role,\n\t\t\temail = EXCLUDED.email,\n\t\t\tphone = EXCLUDED.phone,\n\t\t\tdisplay_name = EXCLUDED.display_name,\n\t\t\tbio = EXCLUDED.bio,\n\t\t\tavatar_url = EXCLUDED.avatar_url,\n\t\t\tdate_of_birth = EXCLUDED.date_of_birth,\n\t\t\tpreferences = EXCLUDED.preferences,\n\t\t\ttags = EXCLUDED.tags,\n\t\t\tmetadata = EXCLUDED.metadata,\n\t\t\tstatus = EXCLUDED.status,\n\t\t\tlast_login = EXCLUDED.last_login,\n\t\t\taddresses = EXCLUDED.addresses\n\t"

unfoldable pub select_query : String
select_query =
    "\n\t\tSELECT id, username, role, email, phone,\n\t\t       display_name, bio, avatar_url, date_of_birth, preferences,\n\t\t       tags, metadata, status, create_date, last_login, addresses\n\t\tFROM users WHERE id = $1\n\t"

unfoldable pub update_query : String
update_query =
    "\n\t\tUPDATE users SET\n\t\t\tusername = $2, role = $3, email = $4, phone = $5,\n\t\t\tdisplay_name = $6, bio = $7, avatar_url = $8, date_of_birth = $9,\n\t\t\tpreferences = $10, tags = $11, metadata = $12, status = $13,\n\t\t\tlast_login = $14, addresses = $15\n\t\tWHERE id = $1\n\t"

unfoldable pub delete_query : String
delete_query = "DELETE FROM users WHERE id = $1"

unfoldable pub list_query_base : String
list_query_base =
    "\n\t\tSELECT id, username, role, email, phone,\n\t\t       display_name, bio, avatar_url, date_of_birth, preferences,\n\t\t       tags, metadata, status, create_date, last_login, addresses\n\t\tFROM users\n\t\tWHERE 1=1\n\t"

unfoldable pub role_query : String
role_query =
    "\n\t\tSELECT id, username, role, email, phone,\n\t\t       display_name, bio, avatar_url, date_of_birth, preferences,\n\t\t       tags, metadata, status, create_date, last_login, addresses\n\t\tFROM users WHERE role = $1 ORDER BY id\n\t"

unfoldable pub exists_query : String
exists_query = "SELECT EXISTS(SELECT 1 FROM users WHERE id = $1)"

unfoldable pub count_query : String
count_query = "SELECT COUNT(*) FROM users"
